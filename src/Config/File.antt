-- ===== src/Config/File.antt =====
-- `config_file` of src/config.cpp and the C functions there. `files` is what the file of a name
-- holds, if it can be opened; the message about one that cannot is not modelled.
use Prim.Native.String.{String}
use handystats.Prelude.{
  ℕ, ◌<◌, ◌≡◌, refl, Bool, false, Option, none, some, Option-cases, inl, inr, u64_mod,
  if◌then◌else◌,
}
use handystats.MathUtils.{◌>>=◌, IfSome}
use handystats.JsonDump.{c_str}
use handystats.Config.Options.{Rapidjson}
use handystats.Config.Json.{Configuration, config_json}
use handystats.Config.Json.Usable.{AllUsable, config_json-AllUsable}

-- A `bool` as an `int`.
abbrev to_int : Bool → ℕ
to_int b = if b then 1 else 0

module _ ⦃json : Rapidjson⦄ where
  open json use {Value, as_uint64}

  -- The text goes on as a C string. `enabled` is what `is_enabled` gives.
  unfoldable pub config_file :
      (String → Option String) → Bool → String → Configuration → Option (Configuration × Bool)
  unfolding config_json c_str
  config_file files enabled filename c = elim (files filename) [
    | none ↦ some (c, false)
    | some config_data ↦ config_json enabled (c_str config_data) c
  ]

  unfoldable pub handystats_config_file :
      (String → Option String) → Bool → String → Configuration → Option (Configuration × ℕ)
  unfolding config_file
  handystats_config_file files enabled file c =
      config_file files enabled file c >>= λ (c', b). some (c', to_int b)

  unfoldable pub handystats_config_json : Bool → String → Configuration → Option (Configuration × ℕ)
  unfolding config_json
  handystats_config_json enabled config_data c =
      config_json enabled config_data c >>= λ (c', b). some (c', to_int b)

  -- Whatever is in the file, or if there is none, options that are usable stay usable.
  pub config_file-AllUsable :
      ((v : Value) → IfSome (λ n. n < u64_mod) (as_uint64 v))
      → (files : String → Option String) (enabled : Bool) (filename : String) (c : Configuration)
      → AllUsable c
      → IfSome (λ (r : Configuration × Bool). AllUsable r.0) (config_file files enabled filename c)
  unfolding config_file
  config_file-AllUsable small files enabled filename c h = elim (Option-cases (files filename)) [
    | inl e ↦ rw (e, config_file) h
    | inr (text, e) ↦ rw (e, config_file) (config_json-AllUsable small enabled (c_str text) c h)
  ]

  -- The C function for a file gives just what the one for a text gives at the file's text, up to its
  -- first zero character, and 0 with the configuration as it was if the file cannot be opened.
  pub handystats_config_file_lem :
      (files : String → Option String) (enabled : Bool) (file : String) (c : Configuration)
      → handystats_config_file files enabled file c ≡ (elim (files file) [
        | none ↦ some (c, 0)
        | some text ↦ handystats_config_json enabled (c_str text) c
      ])
  unfolding handystats_config_file handystats_config_json config_file
  handystats_config_file_lem files enabled file c = elim (Option-cases (files file)) [
    | inl e ↦ rw (handystats_config_file, config_file, e) refl
    | inr (text, e) ↦ rw (handystats_config_file, config_file, e) refl
  ]
