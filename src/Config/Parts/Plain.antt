-- ===== src/Config/Parts/Plain.antt =====
-- crates/core/src/config.rs: compression, TLS, the admin's credentials and logging are read back.
use ferro_http.Base.{◌^◌, ◌≤◌, ◌≡◌, refl, true, [], ◌∷◌, codes, bytes_eq, utf8_valid}
use ferro_http.Json.{Float, get, find_member}
use ferro_http.Config.{CompressionConfig, LoggingConfig, TlsConfig, AdminConfig}
use ferro_http.Config.Read.{
  read_field, read_bool, read_string, read_usize, read_compression, read_tls, read_admin,
  read_logging,
}
use ferro_http.Config.Write.{
  escape_byte, escape_json, compression_text, tls_text, admin_text, logging_text,
}
use ferro_http.Config.Members.{Field, entry, members_of}
use ferro_http.Config.Fields.{
  IsExact, as_u64-exact, text_field, bool_field, number_field, object_field,
}
use ferro_http.Config.Parts.{Part, usize_of-small}

module _ {F : Type 0} (float : Float F) (exact : IsExact float) where
  pub compression-Part :
      (c d : CompressionConfig)
      → c.min_bytes ≤ 2 ^ 53
      → Part float (compression_text c) (λ v. read_compression float v d) c
  unfolding compression_text read_compression read_field read_bool read_usize get find_member
      bytes_eq escape_json escape_byte utf8_valid entry members_of
  compression-Part c d fits = record {
    value = field.value;
    starts = field.text_starts;
    text_reads = field.text_reads;
    read_back =
        rw
          (
            as_u64-exact float exact c.min_bytes fits,
            usize_of-small (codes "min_bytes") (codes "compression") c.min_bytes fits,
          )
          refl;
  }
    where
      field : Field float 2
      field =
          object_field float 1 (codes "compression") (codes "  ") (codes "    ")
            (bool_field float 1 (codes "gzip") c.gzip refl)
            (number_field float 1 (codes "min_bytes") c.min_bytes refl exact fits ∷ []) refl refl
            refl

module _ {F : Type 0} (float : Float F) where
  pub tls-Part :
      (c d : TlsConfig)
      → utf8_valid c.cert_path ≡ true
      → utf8_valid c.key_path ≡ true
      → Part float (tls_text c) (λ v. read_tls float v d) c
  unfolding tls_text read_tls read_field read_bool read_string get find_member bytes_eq escape_json
      escape_byte utf8_valid entry members_of
  tls-Part c d cert_valid key_valid = record {
    value = field.value;
    starts = field.text_starts;
    text_reads = field.text_reads;
    read_back = refl;
  }
    where
      field : Field float 2
      field =
          object_field float 1 (codes "tls") (codes "  ") (codes "    ")
            (bool_field float 1 (codes "enabled") c.enabled refl)
            (text_field float 1 (codes "cert_path") c.cert_path refl cert_valid
              ∷ text_field float 1 (codes "key_path") c.key_path refl key_valid
              ∷ [])
            refl refl refl

  pub admin-Part :
      (c d : AdminConfig)
      → utf8_valid c.username ≡ true
      → utf8_valid c.password_sha256 ≡ true
      → Part float (admin_text c) (λ v. read_admin float v d) c
  unfolding admin_text read_admin read_field read_string get find_member bytes_eq escape_json
      escape_byte utf8_valid entry members_of
  admin-Part c d name_valid password_valid = record {
    value = field.value;
    starts = field.text_starts;
    text_reads = field.text_reads;
    read_back = refl;
  }
    where
      field : Field float 2
      field =
          object_field float 1 (codes "admin") (codes "  ") (codes "    ")
            (text_field float 1 (codes "username") c.username refl name_valid)
            (text_field float 1 (codes "password_sha256") c.password_sha256 refl password_valid
              ∷ [])
            refl refl refl

  pub logging-Part :
      (c d : LoggingConfig)
      → utf8_valid c.level ≡ true
      → Part float (logging_text c) (λ v. read_logging float v d) c
  unfolding logging_text read_logging read_field read_bool read_string get find_member bytes_eq
      escape_json escape_byte utf8_valid entry members_of
  logging-Part c d valid = record {
    value = field.value;
    starts = field.text_starts;
    text_reads = field.text_reads;
    read_back = refl;
  }
    where
      field : Field float 2
      field =
          object_field float 1 (codes "logging") (codes "  ") (codes "    ")
            (text_field float 1 (codes "level") c.level refl valid)
            (bool_field float 1 (codes "access_log") c.access_log refl ∷ []) refl refl refl
