-- ===== src/Transfers.antt =====
-- Transfers of credits that are retried under one operation number: Adjustment of
-- web/src/features/account/AdminPage.tsx, by which an administrator changes a balance, and Funding
-- of web/src/features/operations/TeamsPage.tsx, by which a member pays into a team. `F` are the
-- fields of the form, `P` is what is made of them, and `accepts` is the test of the submit button.
-- `crypto.randomUUID()` is an argument of the submit.
pub mod Pages
pub mod Once
mod Tests
use plugin_pocket.Base.{
  Bool, true, false, not, ◌&&◌, Option, none, some, List, [], ◌∷◌, Text, if◌then◌else◌, or_else,
  is_some,
}

-- What the mutation is doing.
pub data Phase : Type 0 where
  idle pending failed done : Phase

abbrev pub is_pending : Phase → Bool
is_pending pending = true
is_pending _ = false

abbrev pub is_done : Phase → Bool
is_done done = true
is_done _ = false

-- A request: its operation number and what it asks for.
abbrev pub Request : Type 0 → Type 0
Request P = Text × P

pub record Transfer (F P : Type 0) : Type 0 where
  pub fields : F
  pub operation : Option (Request P)
  pub phase : Phase

module _ {F P : Type 0} where
  abbrev pub begun : F → Transfer F P
  begun blank = record { fields = blank; operation = none; phase = idle }

  -- The fields are disabled once there is an operation.
  unfoldable pub type_fields : F → Transfer F P → Transfer F P
  type_fields fields t = if is_some t.operation then t else record t { fields = fields }

  -- The form is there until the mutation has succeeded, its button is off while one runs.
  unfoldable pub submit :
      (F → P) → (F → Bool) → Text → Transfer F P → Transfer F P × Option (Request P)
  submit payload accepts key t =
      let next = or_else t.operation (key, payload t.fields) in
      if not (is_pending t.phase) && (not (is_done t.phase) && accepts t.fields)
      then (record t { operation = some next; phase = pending }, some next)
      else (t, none)

  -- The end of the request.
  unfoldable pub settled : Bool → Transfer F P → Transfer F P
  settled success t =
      if is_pending t.phase then record t { phase = if success then done else failed } else t

  -- The button for another transfer stands in the place of the form.
  unfoldable pub again : F → Transfer F P → Transfer F P
  again blank t = if is_done t.phase then begun blank else t
