-- ===== src/Release/Tests.antt =====
-- Runs of the preflight and of the manifest's script, and the theorems at concrete releases.
use plugin_pocket.Base.{
  or_else, ◌≡◌, refl, false, none, some, List, [], ◌∷◌, ◌++◌, map, Text, codes, empty, trim, split,
  trim_start, is_space, split_from, lookup, insert, ok,
}
use plugin_pocket.Release.{
  is_number, is_stable, validate_release, Updater, lines_from, is_key_line, is_minisign,
  validate_updater, to_quote, match_here, first_match, Inputs, preflight,
}
use plugin_pocket.Release.Lines.{Declares}
use plugin_pocket.Release.Preflight.{IsVersion, IsSafe, preflight-eq-ok}
use plugin_pocket.Release.Manifest.{
  platform_assets, Asset, Manifest, asset_url, assets_of, build_updater_manifest, pairs, parse_args,
  version_of, read_file, run,
}
use plugin_pocket.Release.Assets.{IsGiven, AreServed, run-eq-ok}

runs : Unit {0}
unfolding is_number is_stable validate_release lines_from is_key_line is_minisign validate_updater
    to_quote match_here first_match preflight asset_url assets_of build_updater_manifest pairs
    parse_args run split split_from trim trim_start is_space lookup insert
runs = tt

abbrev settings : Updater
settings = record {
  endpoints = some (codes "https://example.org/latest.json" ∷ []);
  pubkey = some (codes "key");
  install_mode = some (codes "passive");
}

abbrev decode : Text → Text
decode s =
    codes "untrusted comment: minisign public key: 1"
    ++ 10 ∷ codes "RWaaaaaaaaaaaaaaaaaaaaaaaaaaaaaaaaaaaaaaaaaaaaaaaaaaaaaaaaaa"

abbrev cargo : Text
cargo = codes "[package]" ++ 10 ∷ codes "version = \"1.20.0\""

abbrev inputs : Inputs
inputs = record {
  tag = some (codes "v1.20.0");
  signing_key = some (codes "secret");
  tauri_version = some (codes "1.20.0");
  updater = settings;
  ui_version = some (codes "1.20.0");
  desktop_cargo = cargo;
  cli_cargo = cargo;
  version_go = codes "const Version = \"1.20.0\"";
}

leading_zero : is_stable (codes "v1.02.0") ≡ false
unfolding runs
leading_zero = refl

passed : preflight decode inputs ≡ ok tt
unfolding runs
passed = refl

preflight-eq-ok_example :
    (v : Text) × (codes "v1.20.0" ≡ b'v' ∷ v)
    × IsVersion v
    × (inputs.tauri_version ≡ some v)
    × (inputs.ui_version ≡ some v)
    × Declares (codes "version = \"") v inputs.desktop_cargo
    × Declares (codes "version = \"") v inputs.cli_cargo
    × Declares (codes "const Version = \"") v inputs.version_go
    × (empty (trim (or_else inputs.signing_key [])) ≡ false)
    × IsSafe decode inputs.updater
preflight-eq-ok_example = preflight-eq-ok decode inputs (codes "v1.20.0") refl passed

abbrev list : Text → List Text
list dir =
    codes "x86_64-unknown-linux-gnu-p.AppImage"
    ∷ codes "x86_64-unknown-linux-gnu-p.AppImage.sig"
    ∷ codes "aarch64-unknown-linux-gnu-p.AppImage"
    ∷ codes "aarch64-unknown-linux-gnu-p.AppImage.sig"
    ∷ codes "x86_64-apple-darwin-p.app.tar.gz"
    ∷ codes "x86_64-apple-darwin-p.app.tar.gz.sig"
    ∷ codes "aarch64-apple-darwin-p.app.tar.gz"
    ∷ codes "aarch64-apple-darwin-p.app.tar.gz.sig"
    ∷ codes "x86_64-pc-windows-msvc-p.exe"
    ∷ codes "x86_64-pc-windows-msvc-p.exe.sig"
    ∷ codes "SHA256SUMS"
    ∷ []

abbrev read : Text → Text → Text
read dir name = codes " signature "

abbrev argv : List Text
argv =
    codes "--assets"
    ∷ codes "d"
    ∷ codes "--tag"
    ∷ codes "v1.2.3"
    ∷ codes "--repo"
    ∷ codes "o/r"
    ∷ codes "--out"
    ∷ codes "latest.json"
    ∷ []

abbrev served : Text → Text → Text × Asset
served key name = (
  key,
  record {
    signature = codes "signature";
    url = codes "https://github.com/o/r/releases/download/v1.2.3/" ++ name;
  },
)

abbrev manifest : Manifest
manifest = record {
  version = codes "1.2.3";
  notes = codes "PluginPocket v1.2.3";
  pub_date = codes "now";
  platforms =
      served (codes "linux-x86_64") (codes "x86_64-unknown-linux-gnu-p.AppImage")
      ∷ served (codes "linux-aarch64") (codes "aarch64-unknown-linux-gnu-p.AppImage")
      ∷ served (codes "darwin-x86_64") (codes "x86_64-apple-darwin-p.app.tar.gz")
      ∷ served (codes "darwin-aarch64") (codes "aarch64-apple-darwin-p.app.tar.gz")
      ∷ served (codes "windows-x86_64") (codes "x86_64-pc-windows-msvc-p.exe")
      ∷ [];
}

built : run (λ name. name) list read (codes "now") argv ≡ ok (codes "latest.json", manifest)
unfolding runs
built = refl

run-eq-ok_example :
    (dir : Text) × (tag : Text) × (repo : Text) × (IsGiven (codes "assets") argv dir
      × (empty dir ≡ false))
    × (IsGiven (codes "tag") argv tag × (tag ≡ b'v' ∷ manifest.version))
    × (IsGiven (codes "repo") argv repo × (empty repo ≡ false))
    × (IsGiven (codes "out") argv (codes "latest.json") × (empty (codes "latest.json") ≡ false))
    × AreServed
        (λ name. name)
        (map (read_file (read dir)) (list dir))
        (record {
          version = version_of tag;
          repo = repo;
          tag = tag;
          pub_date = codes "now";
          notes = none;
        })
        platform_assets
        manifest.platforms
run-eq-ok_example =
    run-eq-ok (λ name. name) list read (codes "now") argv (codes "latest.json") manifest built
