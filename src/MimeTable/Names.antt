-- ===== src/MimeTable/Names.antt =====
-- build/mime.rs: the names of the types that the table gives.
use rustful.Base.{Bytes, codes}
use rustful.File.{MaybeKnown, known, unknown}
use rustful.MimeTable.{
  TopLevel, text, image, audio, video, application, multipart, message, model, SubLevel, plain,
  html, xml, javascript, css, json, www_form_url_encoded, form_data, png, gif, bmp, jpeg,
}

-- how a type is written
abbrev pub top_name : MaybeKnown TopLevel → Bytes
top_name (known TopLevel.star) = codes "*"
top_name (known text) = codes "text"
top_name (known image) = codes "image"
top_name (known audio) = codes "audio"
top_name (known video) = codes "video"
top_name (known application) = codes "application"
top_name (known multipart) = codes "multipart"
top_name (known message) = codes "message"
top_name (known model) = codes "model"
top_name (unknown s) = s

abbrev pub sub_name : MaybeKnown SubLevel → Bytes
sub_name (known SubLevel.star) = codes "*"
sub_name (known plain) = codes "plain"
sub_name (known html) = codes "html"
sub_name (known xml) = codes "xml"
sub_name (known javascript) = codes "javascript"
sub_name (known css) = codes "css"
sub_name (known json) = codes "json"
sub_name (known www_form_url_encoded) = codes "www-form-url-encoded"
sub_name (known form_data) = codes "form-data"
sub_name (known png) = codes "png"
sub_name (known gif) = codes "gif"
sub_name (known bmp) = codes "bmp"
sub_name (known jpeg) = codes "jpeg"
sub_name (unknown s) = s
