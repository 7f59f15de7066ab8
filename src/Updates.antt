-- ===== src/Updates.antt =====
-- desktop/ui/src/updater.ts and desktop/ui/src/UpdatePanel.tsx: looking for an update, downloading
-- it, and the panel that shows how far this is. The updater's plugin is not modelled: what its
-- check yields and the events of a download are arguments. Text shown in Chinese is named, not spelt.
pub mod Progress
pub mod Runs
mod Tests
use plugin_pocket.Base.{
  ℕ, ◌+◌, min, Bool, true, false, not, ◌&&◌, Option, none, some, List, [], ◌∷◌, Text, codes,
  if◌then◌else◌, ltb, empty, Result, ok, err, ◌>>=◌,
}

pub record UpdateInfo : Type 0 where
  pub current_version : Text
  pub version : Text
  pub notes : Option Text

pub record UpdateProgress : Type 0 where
  pub received : ℕ
  pub total : Option ℕ

-- The plugin's update: what `latest.json` says.
pub record Update : Type 0 where
  pub current_version : Text
  pub version : Text
  pub body : Option Text

pub data Checked : Type 0 where
  update_available : UpdateInfo → Checked
  no_update : Text → Checked

-- `getVersion()` and the version of the package where that fails or is empty
unfoldable pub current_version : Option Text → Text → Text
current_version none bundled = bundled
current_version (some v) bundled = if empty v then bundled else v

-- `updateInfo.parse(…)`
unfoldable pub parse_update : Update → Result (Unit {0}) Checked
parse_update u =
    if not (empty u.current_version) && not (empty u.version)
    then ok (
        update_available
          (record { current_version = u.current_version; version = u.version; notes = u.body }))
    else err tt

abbrev pub checked : Text → Option Update → Result (Unit {0}) Checked
checked version none = ok (no_update version)
checked version (some u) = parse_update u

-- `updater.check()`
unfoldable pub check :
    Result (Unit {0}) (Option Update) → Option Text → Text → Result (Unit {0}) Checked
check answer running bundled = do update ← answer; checked (current_version running bundled) update

pub data DownloadEvent : Type 0 where
  started : Option ℕ → DownloadEvent
  progressed : ℕ → DownloadEvent
  finished : DownloadEvent

-- `total` and `received` of one download, before and after an event, and what it reports.
unfoldable pub on_event : DownloadEvent → UpdateProgress → UpdateProgress × Option UpdateProgress
on_event (started length) d =
    (record d { total = length }, some (record { received = 0; total = length }))
on_event (progressed chunk) d =
    (record d { received = d.received + chunk }, some (record d { received = d.received + chunk }))
on_event finished d = (d, none)

abbrev pub fresh : UpdateProgress
fresh = record { received = 0; total = none }

pub data Phase : Type 0 where
  idle checking available uptodate downloading ready error : Phase

pub record Panel : Type 0 where
  pub phase : Phase
  pub version : Text
  pub info : Option UpdateInfo
  pub progress : Option UpdateProgress

abbrev pub opened : Panel
opened = record { phase = idle; version = []; info = none; progress = none }

-- The check at the start ends; `cancelled` says that the panel is gone.
unfoldable pub silent_done : Bool → Result (Unit {0}) Checked → Panel → Panel
silent_done cancelled (err e) p = p
silent_done true (ok r) p = p
silent_done false (ok (update_available i)) p = record p {
  info = some i;
  version = i.current_version;
  phase = available;
}
silent_done false (ok (no_update v)) p = record p { version = v }

unfoldable pub version_done : Bool → Text → Panel → Panel
version_done true v p = p
version_done false v p = record p { version = v }

-- `check`, before and after its `await`
unfoldable pub check_start : Panel → Panel
check_start p = record p { phase = checking }

unfoldable pub check_done : Result (Unit {0}) Checked → Panel → Panel
check_done (err e) p = record p { phase = error }
check_done (ok (update_available i)) p = record p { info = some i; phase = available }
check_done (ok (no_update v)) p = record p { version = v; info = none; phase = uptodate }

-- `install`, before and after its `await`, and the progress that is reported in between
unfoldable pub install_start : Panel → Panel
install_start p = record p { phase = downloading; progress = none }

unfoldable pub install_progress : UpdateProgress → Panel → Panel
install_progress d p = record p { progress = some d }

unfoldable pub install_done : Result (Unit {0}) (Unit {0}) → Panel → Panel
install_done (ok done) p = record p { phase = ready }
install_done (err e) p = record p { phase = error }

unfoldable pub put_off : Panel → Panel
put_off p = record p { phase = idle }

-- `scale received total` is `Math.floor((received / total) * 100)` in floating point.
abbrev pub percent_of : (ℕ → ℕ → ℕ) → ℕ → Option ℕ → Option ℕ
percent_of scale received none = none
percent_of scale received (some total) =
    if ltb 0 total then some (min 100 (scale received total)) else none

unfoldable pub percent : (ℕ → ℕ → ℕ) → Option UpdateProgress → Option ℕ
percent scale none = none
percent scale (some d) = percent_of scale d.received d.total

pub data Action : Type 0 where
  check_now install later restart : Action

-- What the panel shows: its texts' variable parts, and its buttons.
pub data Shown : Type 0 where
  nothing : Shown
  current : Text → Shown
  looking : Shown
  offer : Text → Text → Option Text → Shown
  latest : Text → Shown
  loading : Option ℕ → Shown
  installed : Shown
  failed : Bool → Shown

abbrev pub or_text : Text → Text → Text
or_text s d = if empty s then d else s

abbrev pub offered : Panel → Option UpdateInfo → Shown
offered p none = nothing
offered p (some i) = offer i.version (or_text i.current_version p.version) i.notes

abbrev pub has_info : Option UpdateInfo → Bool
has_info none = false
has_info (some i) = true

-- The one block of the panel that its phase selects.
abbrev pub shown_at : (ℕ → ℕ → ℕ) → Panel → Phase → Shown
shown_at scale p idle = current (or_text p.version (codes "…"))
shown_at scale p checking = looking
shown_at scale p available = offered p p.info
shown_at scale p uptodate = latest (or_text p.version (codes "…"))
shown_at scale p downloading = loading (percent scale p.progress)
shown_at scale p ready = installed
shown_at scale p error = failed (has_info p.info)

unfoldable pub shown : (ℕ → ℕ → ℕ) → Panel → Shown
shown scale p = shown_at scale p p.phase

-- The buttons of a block.
abbrev pub buttons : Shown → List Action
buttons nothing = []
buttons (current v) = check_now ∷ []
buttons looking = []
buttons (offer v c n) = install ∷ later ∷ []
buttons (latest v) = check_now ∷ []
buttons (loading p) = []
buttons installed = restart ∷ []
buttons (failed true) = install ∷ []
buttons (failed false) = check_now ∷ []
