-- ===== src/Config/Parts/Lists.antt =====
-- crates/core/src/config.rs: the parts that hold lists of strings are read back.
use ferro_http.Base.{
  ℕ, suc, ◌^◌, ◌≤◌, ◌≡◌, refl, true, List, [], ◌∷◌, Bytes, codes, bytes_eq, all, utf8_valid,
}
use ferro_http.Json.{Float, array, get, find_member}
use ferro_http.Config.{StaticConfig, SecurityConfig, ok}
use ferro_http.Config.Read.{
  read_field, read_bool, read_string, read_u64, string_items, read_string_array, read_static,
  read_rate_limit, read_security,
}
use ferro_http.Config.Write.{escape_byte, escape_json, static_text, rate_limit_text, security_text}
use ferro_http.Config.Arrays.{strings}
use ferro_http.Config.Members.{Field, entry, members_of}
use ferro_http.Config.Fields.{
  IsExact, as_u64-exact, text_field, bool_field, number_field, array_field, object_field,
}
use ferro_http.Config.Parts.{Part}

string_items-strings :
    (F : Type 0) (i : ℕ) (ss : List Bytes) (path : Bytes)
    → string_items i (strings {F = F} ss) path ≡ ok ss
unfolding string_items strings
string_items-strings F i [] path = refl
string_items-strings F i (s ∷ ss) path = rw (string_items-strings F (suc i) ss path) refl

read_string_array-strings :
    (F : Type 0) (ss : List Bytes) (path : Bytes)
    → read_string_array (array (strings {F = F} ss)) path ≡ ok ss
unfolding read_string_array
read_string_array-strings F ss path = string_items-strings F 0 ss path

pub record StaticFits (c : StaticConfig) : Type 0 where
  pub root_valid : utf8_valid c.root ≡ true
  pub index_valid : all utf8_valid c.index_files ≡ true

pub record SecurityFits (c : SecurityConfig) : Type 0 where
  pub requests_fit : c.rate_limit.requests ≤ 2 ^ 53
  pub window_fits : c.rate_limit.window_secs ≤ 2 ^ 53
  pub ban_fits : c.rate_limit.ban_secs ≤ 2 ^ 53
  pub patterns_valid : all utf8_valid c.blocked_patterns ≡ true

module _ {F : Type 0} (float : Float F) where
  pub static-Part :
      (c d : StaticConfig)
      → StaticFits c
      → Part float (static_text c) (λ v. read_static float v d) c
  unfolding static_text read_static read_field read_bool read_string get find_member bytes_eq
      escape_json escape_byte utf8_valid entry members_of
  static-Part c d fits = record {
    value = field.value;
    starts = field.text_starts;
    text_reads = field.text_reads;
    read_back = rw (read_string_array-strings F c.index_files (codes "static.index_files")) refl;
  }
    where
      field : Field float 2
      field =
          object_field float 1 (codes "static") (codes "  ") (codes "    ")
            (text_field float 1 (codes "root") c.root refl fits.root_valid)
            (array_field float 0 (codes "index_files") c.index_files refl fits.index_valid
              ∷ bool_field float 1 (codes "follow_symlinks") c.follow_symlinks refl
              ∷ bool_field float 1 (codes "directory_listing") c.directory_listing refl
              ∷ [])
            refl refl refl

module _ {F : Type 0} (float : Float F) (exact : IsExact float) where
  pub security-Part :
      (c d : SecurityConfig)
      → SecurityFits c
      → Part float (security_text c) (λ v. read_security float v d) c
  unfolding security_text rate_limit_text read_security read_rate_limit read_field read_bool
      read_u64 get find_member bytes_eq escape_json escape_byte utf8_valid entry members_of
  security-Part c d fits = record {
    value = field.value;
    starts = field.text_starts;
    text_reads = field.text_reads;
    read_back =
        rw
          (
            as_u64-exact float exact c.rate_limit.requests fits.requests_fit,
            as_u64-exact float exact c.rate_limit.window_secs fits.window_fits,
            as_u64-exact float exact c.rate_limit.ban_secs fits.ban_fits,
            read_string_array-strings F c.blocked_patterns (codes "security.blocked_patterns"),
          )
          refl;
  }
    where
      limit : Field float 1
      limit =
          object_field float 0 (codes "rate_limit") (codes "    ") (codes "      ")
            (bool_field float 0 (codes "enabled") c.rate_limit.enabled refl)
            (number_field float 0 (codes "requests") c.rate_limit.requests refl exact
                fits.requests_fit
              ∷ number_field float 0 (codes "window_secs") c.rate_limit.window_secs refl exact
                  fits.window_fits
              ∷ number_field float 0 (codes "ban_secs") c.rate_limit.ban_secs refl exact
                  fits.ban_fits
              ∷ [])
            refl refl refl

      field : Field float 2
      field =
          object_field float 1 (codes "security") (codes "  ") (codes "    ")
            (bool_field float 1 (codes "enable_security_headers") c.enable_security_headers refl)
            (limit
              ∷ array_field float 0 (codes "blocked_patterns") c.blocked_patterns refl
                  fits.patterns_valid
              ∷ [])
            refl refl refl
