-- ===== src/Secrets.antt =====
-- Secrets that the server gives once: the tokens of web/src/features/account/TokensPage.tsx, the
-- redemption codes of web/src/features/operations/CodesPage.tsx and the invitations of TeamDetail in
-- TeamsPage.tsx. `A` is what is shown, with OneTimeCode.tsx or a section of the page.
pub mod Shown
pub mod Tokens
mod Tests
use plugin_pocket.Base.{
  Bool, true, false, not, ◌&&◌, ◌||◌, Option, none, some, List, Text, codes, if◌then◌else◌, is_some,
}

pub record Reveal (A : Type 0) : Type 0 where
  pub shown : Option A
  pub pending : Bool

module _ {A : Type 0} where
  abbrev pub nothing : Reveal A
  nothing = record { shown = none; pending = false }

  -- The panel that holds the form does not close.
  unfoldable pub locked : Reveal A → Bool
  locked r = r.pending || is_some r.shown

  -- The button of the form, which `accepts` may turn off as well; whether a request goes out.
  unfoldable pub create : Bool → Reveal A → Reveal A × Bool
  create accepts r =
      if not (locked r) && accepts then (record r { pending = true }, true) else (r, false)

  -- The answer: a secret, or a failure.
  unfoldable pub answered : Option A → Reveal A → Reveal A
  answered none r = record r { pending = false }
  answered (some a) r = record { shown = some a; pending = false }

  unfoldable pub hide : Reveal A → Reveal A
  hide r = record r { shown = none }

-- What is said of a copy.
pub data Copy : Type 0 where
  unasked copied by_hand : Copy

abbrev pub copy_done : Bool → Copy
copy_done true = copied
copy_done false = by_hand
