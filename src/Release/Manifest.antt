-- ===== src/Release/Manifest.antt =====
-- scripts/build-updater-manifest.mjs: the manifest that an installed client reads to find an update.
-- `encodeURIComponent`, `JSON.stringify` and the directory are arguments or not modelled; a file is
-- its name and, for a signature, its text. The arguments' flags are taken for ordinary keys.
use plugin_pocket.Base.{
  ℕ, ◌+◌, ◌-◌, Bool, not, ◌&&◌, Option, none, some, List, [], ◌∷◌, ◌++◌, map, Text, codes, eq_text,
  starts_with, ends_with, if◌then◌else◌, keep, take, drop, length, or_else, empty, trim, lookup,
  insert, Result, ok, err, ◌>>=◌, ◌>>◌, reject,
}

pub record Platform : Type 0 where
  pub key : Text
  pub prefix : Text
  pub suffix : Text

abbrev pub platform_assets : List Platform
platform_assets =
    record {
      key = codes "linux-x86_64";
      prefix = codes "x86_64-unknown-linux-gnu-";
      suffix = codes ".AppImage";
    }
    ∷ record {
      key = codes "linux-aarch64";
      prefix = codes "aarch64-unknown-linux-gnu-";
      suffix = codes ".AppImage";
    }
    ∷ record {
      key = codes "darwin-x86_64";
      prefix = codes "x86_64-apple-darwin-";
      suffix = codes ".app.tar.gz";
    }
    ∷ record {
      key = codes "darwin-aarch64";
      prefix = codes "aarch64-apple-darwin-";
      suffix = codes ".app.tar.gz";
    }
    ∷ record {
      key = codes "windows-x86_64";
      prefix = codes "x86_64-pc-windows-msvc-";
      suffix = codes ".exe";
    }
    ∷ []

pub record File : Type 0 where
  pub name : Text
  pub signature : Option Text

pub record Release : Type 0 where
  pub version : Text
  pub repo : Text
  pub tag : Text
  pub pub_date : Text
  pub notes : Option Text

pub record Asset : Type 0 where
  pub signature : Text
  pub url : Text

pub record Manifest : Type 0 where
  pub version : Text
  pub notes : Text
  pub pub_date : Text
  pub platforms : List (Text × Asset)

-- Each with the platform's key.
pub data Problem : Type 0 where
  version_mismatch : Problem
  not_one : Text → ℕ → Problem
  unsigned : Text → Problem
  missing : Text → Problem

abbrev pub sig : Text
sig = codes ".sig"

abbrev pub is_asset : File → Bool
is_asset f = not (ends_with f.name sig) && not (ends_with f.name (codes "SHA256SUMS"))

-- `name.replace(/\.sig$/, '')` on a name that ends so
abbrev pub signed_name : Text → Text
signed_name name = take (length name - 4) name

-- `new Map(…)`: of two signatures of one name the later one counts.
abbrev pub collect : List File → List (Text × Text) → List (Text × Text)
collect [] m = m
collect (f ∷ fs) m = collect fs (insert (signed_name f.name) (or_else f.signature []) m)

abbrev pub signatures : List File → List (Text × Text)
signatures files = collect (keep (λ f. ends_with f.name sig) files) []

abbrev pub fits : Platform → File → Bool
fits p f = starts_with f.name p.prefix && ends_with f.name p.suffix

module _ (encode : Text → Text) where
  unfoldable pub asset_url : Text → Text → Text → Text
  asset_url repo tag name =
      codes "https://github.com/"
      ++ (repo ++ (codes "/releases/download/" ++ (tag ++ (codes "/" ++ encode name))))

  -- `matches.length !== 1`, and the signature of the one
  abbrev pub asset_of :
      Release → List (Text × Text) → Platform → List File → Result Problem (Text × Asset)
  asset_of r sigs p [] = err (not_one p.key 0)
  asset_of r sigs p (f ∷ []) = do
    reject (empty (trim (or_else (lookup f.name sigs) []))) (unsigned p.key)
    ok (
      p.key,
      record {
        signature = trim (or_else (lookup f.name sigs) []);
        url = asset_url r.repo r.tag f.name;
      },
    )
  asset_of r sigs p (f ∷ g ∷ fs) = err (not_one p.key (2 + length fs))

  -- The loop over the platforms; their keys are all different.
  unfoldable pub assets_of :
      Release → List File → List Platform → Result Problem (List (Text × Asset))
  assets_of r files [] = ok []
  assets_of r files (p ∷ ps) = do
    one ← asset_of r (signatures files) p (keep (fits p) (keep is_asset files))
    rest ← assets_of r files ps
    ok (one ∷ rest)

  unfoldable pub build_updater_manifest : List File → Release → Result Problem Manifest
  build_updater_manifest files r = do
    reject (not (eq_text r.tag (b'v' ∷ r.version))) version_mismatch
    platforms ← assets_of r files platform_assets
    ok (record {
      version = r.version;
      notes = or_else r.notes (codes "PluginPocket v" ++ r.version);
      pub_date = r.pub_date;
      platforms = platforms;
    })

-- `flag.replace(/^--/, '')`
abbrev pub bare : Text → Text
bare flag = if starts_with flag (codes "--") then drop 2 flag else flag

-- A flag without a value behind it has none.
unfoldable pub pairs : List Text → List (Text × Option Text) → List (Text × Option Text)
pairs [] m = m
pairs (flag ∷ []) m = insert (bare flag) none m
pairs (flag ∷ value ∷ argv) m = pairs argv (insert (bare flag) (some value) m)

abbrev pub argument : List (Text × Option Text) → Text → Text
argument args name = or_else (or_else (lookup name args) none) []

abbrev pub required : List Text
required = codes "assets" ∷ codes "tag" ∷ codes "repo" ∷ codes "out" ∷ []

abbrev pub check_required : List (Text × Option Text) → List Text → Result Problem (Unit {0})
check_required args [] = ok tt
check_required args (name ∷ names) =
    reject (empty (argument args name)) (missing name) >> check_required args names

unfoldable pub parse_args : List Text → Result Problem (List (Text × Option Text))
parse_args argv = check_required (pairs argv []) required >> ok (pairs argv [])

-- `tag.replace(/^v/, '')`
abbrev pub version_of : Text → Text
version_of tag = if starts_with tag (codes "v") then drop 1 tag else tag

-- `readFileSync` of signatures only
abbrev pub read_file : (Text → Text) → Text → File
read_file read name = record {
  name = name;
  signature = if ends_with name sig then some (read name) else none;
}

-- `if (import.meta.main) …` with the names in the directory, up to the writing of the manifest
unfoldable pub run :
    (Text → Text)
    → (Text → List Text)
    → (Text → Text → Text)
    → Text
    → List Text
    → Result Problem (Text × Manifest)
run encode list read now argv = do
  args ← parse_args argv
  manifest ←
      build_updater_manifest encode
        (map (read_file (read (argument args (codes "assets"))))
          (list (argument args (codes "assets"))))
        (record {
          version = version_of (argument args (codes "tag"));
          repo = argument args (codes "repo");
          tag = argument args (codes "tag");
          pub_date = now;
          notes = none;
        })
  ok (argument args (codes "out"), manifest)
