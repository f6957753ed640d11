-- ===== src/Config/RoundTrip.antt =====
-- crates/core/src/config.rs: the configuration is read back from what is written of it.
use ferro_http.Base.{
  ℕ, suc, ◌^◌, ◌≤◌, ◌≡◌, refl, ap, ◌∙◌, Bool, true, false, not, List, [], ◌∷◌, ◌++◌, map, arith,
  Bytes, codes, bytes_eq, all, utf8_valid,
}
use ferro_http.Json
use ferro_http.Json.{
  Float, JsonValue, object, Members, Parser, skip_ws, skip_ws_from, is_ws, get, find_member,
}
use ferro_http.Json.Parse.{max_depth, parse}
use ferro_http.Config.{Config, default_config, Result, ok, validate}
use ferro_http.Config.Read.{
  read_field, read_server, read_static, read_compression, read_security, read_tls, read_admin,
  read_logging, read_string_map, read_config, from_json, from_json_str,
}
use ferro_http.Config.Write.{
  server_text, static_text, compression_text, security_text, tls_text, admin_text, logging_text,
  json_string_object, block, escape_json, escape_byte, to_json_string,
}
use ferro_http.Config.Values.{Reads}
use ferro_http.Config.Blocks.{block-Reads}
use ferro_http.Config.Members.{Field, entry, members_of, starts_value}
use ferro_http.Config.Fields.{IsExact, block_starts}
use ferro_http.Config.Parts.{ServerFits, Part, server-Part}
use ferro_http.Config.Parts.Plain.{compression-Part, tls-Part, admin-Part, logging-Part}
use ferro_http.Config.Parts.Lists.{StaticFits, SecurityFits, static-Part, security-Part}
use ferro_http.Config.Parts.Mime.{pair_valid, mime-Part}

-- Valid texts, and numbers that `f64` holds exactly.
pub record Fits (c : Config) : Type 0 where
  pub server_fits : ServerFits c.server
  pub static_fits : StaticFits c.static_files
  pub compression_fits : c.compression.min_bytes ≤ 2 ^ 53
  pub security_fits : SecurityFits c.security
  pub cert_valid : utf8_valid c.tls.cert_path ≡ true
  pub key_valid : utf8_valid c.tls.key_path ≡ true
  pub username_valid : utf8_valid c.admin.username ≡ true
  pub password_valid : utf8_valid c.admin.password_sha256 ≡ true
  pub level_valid : utf8_valid c.logging.level ≡ true
  pub mime_valid : all pair_valid c.mime_overrides ≡ true

module _ {F : Type 0} (float : Float F) where
  -- A value and the line feed behind it are a document.
  parse-Reads :
      (deep : ℕ) (text : Bytes) (v : JsonValue F)
      → deep ≤ max_depth
      → starts_value text ≡ true
      → Reads float deep text v
      → (pos : ℕ) × (parse float (text ++ codes "\n")
          ≡ Json.Reply.ok v (record { pos = pos; rest = [] }))
  unfolding parse skip_ws skip_ws_from
  parse-Reads deep [] v fits starts reads = cc
  parse-Reads deep (c ∷ cs) v fits starts reads =
      let (at, read) =
        reads (suc max_depth) 0 0 (codes "\n") (omega (arith, fits)) (omega (arith, fits)) refl in
      (suc at, rw (not_blank (is_ws c) starts, read) refl)
    where
      not_blank : (b : Bool) → not b ≡ true → b ≡ false
      not_blank b e = ground (arith, e)

  from_json_str-parsed :
      (text : Bytes) (v : JsonValue F) (p : Parser)
      → parse float text ≡ Json.Reply.ok v p
      → from_json_str float text ≡ from_json float v
  unfolding from_json_str
  from_json_str-parsed text v p e = rw (e, from_json_str) refl

  from_json-valid :
      (vs : Members F) (c : Config)
      → read_config float (object vs) default_config ≡ ok c
      → validate c ≡ ok tt
      → from_json float (object vs) ≡ ok c
  unfolding from_json
  from_json-valid vs c read valid = rw (read, valid) refl

  part_field :
      {C : Type 0} (key text : Bytes) {read : JsonValue F → Result C} {c : C}
      → utf8_valid key ≡ true
      → Part float text read c
      → Field float 2
  part_field key text key_valid p = record {
    key = key;
    text = text;
    value = p.value;
    key_valid = key_valid;
    text_starts = p.starts;
    text_reads = p.text_reads;
  }

module _ {F : Type 0} (float : Float F) (exact : IsExact float) (c : Config) (fits : Fits c) where
  server :
      Part float (server_text c.server) (λ v. read_server float v default_config.server) c.server
  server = server-Part float exact c.server default_config.server fits.server_fits

  files :
      Part float
        (static_text c.static_files)
        (λ v. read_static float v default_config.static_files)
        c.static_files
  files = static-Part float c.static_files default_config.static_files fits.static_fits

  compression :
      Part float
        (compression_text c.compression)
        (λ v. read_compression float v default_config.compression)
        c.compression
  compression =
      compression-Part float exact c.compression default_config.compression fits.compression_fits

  security :
      Part float
        (security_text c.security)
        (λ v. read_security float v default_config.security)
        c.security
  security = security-Part float exact c.security default_config.security fits.security_fits

  tls : Part float (tls_text c.tls) (λ v. read_tls float v default_config.tls) c.tls
  tls = tls-Part float c.tls default_config.tls fits.cert_valid fits.key_valid

  admin : Part float (admin_text c.admin) (λ v. read_admin float v default_config.admin) c.admin
  admin = admin-Part float c.admin default_config.admin fits.username_valid fits.password_valid

  logging :
      Part float
        (logging_text c.logging)
        (λ v. read_logging float v default_config.logging)
        c.logging
  logging = logging-Part float c.logging default_config.logging fits.level_valid

  mime :
      Part float
        (json_string_object c.mime_overrides)
        (λ v. read_string_map v (codes "mime_overrides"))
        c.mime_overrides
  mime = mime-Part float c.mime_overrides (codes "mime_overrides") fits.mime_valid

  first : Field float 2
  unfolding utf8_valid
  first = part_field float (codes "server") (server_text c.server) refl server

  others : List (Field float 2)
  unfolding utf8_valid
  others =
      part_field float (codes "static") (static_text c.static_files) refl files
      ∷ part_field float (codes "compression") (compression_text c.compression) refl compression
      ∷ part_field float (codes "security") (security_text c.security) refl security
      ∷ part_field float (codes "tls") (tls_text c.tls) refl tls
      ∷ part_field float (codes "admin") (admin_text c.admin) refl admin
      ∷ part_field float (codes "logging") (logging_text c.logging) refl logging
      ∷ part_field float (codes "mime_overrides") (json_string_object c.mime_overrides) refl mime
      ∷ []

  root : JsonValue F
  root = object (members_of float 2 (first ∷ others))

  to_json_string-block :
      to_json_string c
      ≡ block [] (codes "  ") (entry float 2 first) (map (entry float 2) others) ++ codes "\n"
  unfolding to_json_string first others part_field entry escape_json escape_byte
  to_json_string-block = refl

  read_config-root : read_config float root default_config ≡ ok c
  unfolding read_config read_field root first others part_field members_of get find_member bytes_eq
  read_config-root =
      rw
        (
          server.read_back, files.read_back, compression.read_back, security.read_back,
          tls.read_back, admin.read_back, logging.read_back, mime.read_back,
        )
        refl

  -- A configuration that is valid, whose texts are UTF-8 and whose numbers are at most 2^53, is read
  -- back as it was from what is written of it.
  pub from_json_str-to_json_string :
      validate c ≡ ok tt → from_json_str float (to_json_string c) ≡ ok c
  unfolding root
  from_json_str-to_json_string valid =
      let (at, parsed) =
        parse-Reads float 3
          (block [] (codes "  ") (entry float 2 first) (map (entry float 2) others)) root
          (omega arith)
          (block_starts float [] (codes "  ") (entry float 2 first) (map (entry float 2) others))
          (block-Reads float 2 [] (codes "  ") first others refl refl) in
      ap (from_json_str float) to_json_string-block
      ∙ from_json_str-parsed float _ root _ parsed
      ∙ from_json-valid float (members_of float 2 (first ∷ others)) c read_config-root valid
