-- ===== src/MimeTable/Tests.antt =====
-- A small file of types.
use rustful.Base.{ℕ_discrete, ◌≡◌, refl, some, List, [], ◌∷◌, codes, bytes_discrete, get}
use rustful.File.{known, unknown}
use rustful.MimeTable.{TopLevel, SubLevel, image, application, plain, MimeCrate, generate, top_of}
use rustful.MimeTable.Rows.{Row, Line, comment, row}
use rustful.MimeTable.Lines.{LiteralLaw}

-- names of the types as they stand in the file
abbrev names : MimeCrate
names = record {
  Top = TopLevel;
  Sub = SubLevel;
  top = λ t. t;
  sub = λ s. s;
  top_ext = λ s. application;
  sub_ext = λ s. plain;
  string_literal = λ s. s;
}

abbrev plain_literals : LiteralLaw names
plain_literals = record { string_literal-plain = λ s h. refl }

abbrev plain_text : Row
plain_text = record {
  top = codes "text";
  sub = codes "plain";
  tabs = 2;
  first = codes "txt";
  more = codes "def" ∷ [];
}

abbrev clips : Row
clips = record {
  top = codes "video";
  sub = codes "mp4";
  tabs = 0;
  first = codes "mp4";
  more = codes "def" ∷ [];
}

abbrev lines : List Line
lines = comment (codes " types") ∷ row plain_text ∷ row clips ∷ []

-- a file with a row without extensions and a line without a type
generated :
    get bytes_discrete
      (generate (codes "#x\ntext/plain\nnothing\ta\nvideo/mp4\t\tmp4 m\r\n"))
      (codes "m")
    ≡ some (known image, unknown (codes "mp4"))
unfolding generate get ℕ_discrete top_of
generated = refl
