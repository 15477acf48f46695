-- ===== src/Config/Tests.antt =====
-- The configuration of src/config.cpp at concrete files.
use text.Mathlib.Text.{◌==◌ as str_eq}
use audpipe_cpp.Prelude.{
  ℕ, String, ◌%◌, ◌≡◌, ◌≢◌, refl, ◌⊎◌, ◌↔◌, if◌then◌else◌, Option, none, some, [], ◌∷◌, ℤ, pos, ok,
  err, arith,
}
use audpipe_cpp.Config.{
  client, ConnectionPolicy, default_policy, zero_retries, read_keys, file_to_str, until_nul,
}
use audpipe_cpp.Config.Sample.{
  sample_toml, sample_host, sample_value_or, host, config_path, client_config, create_sample,
  create_sample_server,
}
use audpipe_cpp.Config.Policy.{max_retries_narrowed}
use audpipe_cpp.Config.Ports.{IsValid, create-IsValid}
use audpipe_cpp.Config.File.{file_to_str_overrun}
use audpipe_cpp.Config.Mirror.{create_mirror}

create-IsValid_example : IsValid client_config
create-IsValid_example = create-IsValid host sample_toml config_path client create_sample

create_mirror_example :
    ◌≡◌ {A = String} "::1" "::1"
    × ◌≡◌ {A = ℕ} 8179 8179
    × ◌≡◌ {A = String} "::1" "::1"
    × ◌≡◌ {A = ℕ} 7981 7981
    × (default_policy ≡ default_policy)
create_mirror_example =
    create_mirror host sample_toml sample_value_or config_path create_sample create_sample_server

abbrev wide_keys : String → Option ℤ
wide_keys key = if str_eq key "max_retries" then some (pos 65537) else none

max_retries_narrowed_example :
    ((65537 % 65536 ≡ 0) × (read_keys wide_keys ≡ err zero_retries))
    ⊎ ((p : ConnectionPolicy) × (65537 % 65536 ≢ 0)
        × (read_keys wide_keys ≡ ok p)
        × (p.max_retries ≡ 65537 % 65536))
max_retries_narrowed_example = max_retries_narrowed wide_keys 65537 refl

file_to_str_overrun_example :
    let h = sample_host (91 ∷ 93 ∷ []) (88 ∷ 0 ∷ []) in
    (file_to_str h config_path ≡ ok (91 ∷ 93 ∷ until_nul (88 ∷ 0 ∷ [])))
    × ((file_to_str h config_path ≡ ok (91 ∷ 93 ∷ [])) ↔ (until_nul (88 ∷ 0 ∷ []) ≡ []))
file_to_str_overrun_example =
    file_to_str_overrun (sample_host (91 ∷ 93 ∷ []) (88 ∷ 0 ∷ [])) config_path _ refl (91 ∷ 93 ∷ [])
      (λ e. cc) (omega arith) refl
