-- ===== src/Method/Verbs.antt =====
-- src/handler/method_router.rs: the builder's names for the single methods.
use rustful.Http.{World}
use rustful.Handler.{BuilderContexts, ApplyContext, FromHandler, Default}
use rustful.Method.{Builder, on, method}

-- the methods of hyper that have names of their own in the builder
pub record StandardMethods (w : World) : Type 0 where
  pub get_method : w.Method
  pub post_method : w.Method
  pub patch_method : w.Method
  pub put_method : w.Method
  pub delete_method : w.Method
  pub options_method : w.Method
  pub head_method : w.Method
  pub connect_method : w.Method

module _ {w : World} (s : StandardMethods w) {c : BuilderContexts} {T : Type 0} where
  module _ {H : Type 0} (f : FromHandler c T H) where
    unfoldable pub on_get : Builder w c T → H → Builder w c T
    unfolding on
    on_get b handler = on f b s.get_method handler

    unfoldable pub on_post : Builder w c T → H → Builder w c T
    unfolding on
    on_post b handler = on f b s.post_method handler

    unfoldable pub on_patch : Builder w c T → H → Builder w c T
    unfolding on
    on_patch b handler = on f b s.patch_method handler

    unfoldable pub on_put : Builder w c T → H → Builder w c T
    unfolding on
    on_put b handler = on f b s.put_method handler

    unfoldable pub on_delete : Builder w c T → H → Builder w c T
    unfolding on
    on_delete b handler = on f b s.delete_method handler

    unfoldable pub on_options : Builder w c T → H → Builder w c T
    unfolding on
    on_options b handler = on f b s.options_method handler

    unfoldable pub on_head : Builder w c T → H → Builder w c T
    unfolding on
    on_head b handler = on f b s.head_method handler

    unfoldable pub on_connect : Builder w c T → H → Builder w c T
    unfolding on
    on_connect b handler = on f b s.connect_method handler

  -- `k` is what is done with the builder of the handler
  module _ (a : ApplyContext c T) (d : Default T) where
    unfoldable pub get : Builder w c T → (c.BuilderContext → T → T) → Builder w c T
    unfolding method
    get b k = method a d b s.get_method k

    unfoldable pub post : Builder w c T → (c.BuilderContext → T → T) → Builder w c T
    unfolding method
    post b k = method a d b s.post_method k

    unfoldable pub patch : Builder w c T → (c.BuilderContext → T → T) → Builder w c T
    unfolding method
    patch b k = method a d b s.patch_method k

    unfoldable pub put : Builder w c T → (c.BuilderContext → T → T) → Builder w c T
    unfolding method
    put b k = method a d b s.put_method k

    unfoldable pub delete : Builder w c T → (c.BuilderContext → T → T) → Builder w c T
    unfolding method
    delete b k = method a d b s.delete_method k

    unfoldable pub options : Builder w c T → (c.BuilderContext → T → T) → Builder w c T
    unfolding method
    options b k = method a d b s.options_method k

    unfoldable pub head : Builder w c T → (c.BuilderContext → T → T) → Builder w c T
    unfolding method
    head b k = method a d b s.head_method k

    unfoldable pub connect : Builder w c T → (c.BuilderContext → T → T) → Builder w c T
    unfolding method
    connect b k = method a d b s.connect_method k
