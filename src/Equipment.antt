-- ===== src/Equipment.antt =====
-- desktop/ui/src/EquipmentPage.tsx: the installed equipment with its filters, the update and the
-- uninstallation of an item. What the query of the installed items holds is an argument of each
-- event, as is `toLowerCase`; a row is given by its position among the visible items.
pub mod Confirming
mod Tests
use plugin_pocket.Base.{
  ℕ, zero, suc, Bool, true, false, not, ◌&&◌, ◌||◌, Option, none, some, List, [], ◌∷◌, ◌++◌, Text,
  codes, eq_text, includes, trim, any, keep, if◌then◌else◌, is_some, or_else,
}

pub data Kind : Type 0 where
  mcp skill : Kind

pub data Client : Type 0 where
  codex claude cursor : Client

pub record Item : Type 0 where
  pub slug : Text
  pub kind : Kind
  pub clients : List Client
  pub version : Option Text

-- The query of the installed items.
pub record Installed : Type 0 where
  pub data_of : Option (List Item)
  pub is_fetching : Bool
  pub is_error : Bool

pub data Feedback : Type 0 where
  silent : Feedback
  updated uninstalled : Text → Feedback
  update_failed uninstall_failed : Feedback

-- An operation: its item, and whether that is removed.
abbrev pub Operation : Type 0
Operation = Item × Bool

-- `none` is `all` as a filter.
pub record Page : Type 0 where
  pub search : Text
  pub kind : Option Kind
  pub client : Option Client
  pub confirmation : Option Text
  pub feedback : Feedback
  pub running : Option Operation

abbrev pub opened : Page
opened = record {
  search = [];
  kind = none;
  client = none;
  confirmation = none;
  feedback = silent;
  running = none;
}

abbrev same_kind : Kind → Kind → Bool
same_kind mcp mcp = true
same_kind skill skill = true
same_kind _ _ = false

abbrev same_client : Client → Client → Bool
same_client codex codex = true
same_client claude claude = true
same_client cursor cursor = true
same_client _ _ = false

abbrev of_kind : Option Kind → Item → Bool
of_kind none item = true
of_kind (some kind) item = same_kind item.kind kind

abbrev of_client : Option Client → Item → Bool
of_client none item = true
of_client (some client) item = any (λ target. same_client target client) item.clients

abbrev pub all_items : Installed → List Item
all_items q = if q.is_error then [] else or_else q.data_of []

abbrev row_of : ℕ → List Item → Option Item
row_of n [] = none
row_of zero (item ∷ items) = some item
row_of (suc n) (item ∷ items) = row_of n items

abbrev kind_text : Kind → Text
kind_text mcp = codes "mcp:"
kind_text skill = codes "skill:"

abbrev pub key_of : Item → Text
key_of item = kind_text item.kind ++ item.slug

abbrev pub disabled : Installed → Page → Bool
disabled q p = is_some p.running || (q.is_fetching || q.is_error)

unfoldable pub set_search : Text → Page → Page
set_search search p = record p { search = search; confirmation = none }

unfoldable pub set_client : Option Client → Page → Page
set_client client p = record p { client = client; confirmation = none }

unfoldable pub set_kind : Option Kind → Page → Page
set_kind kind p = record p { kind = kind; confirmation = none }

-- `mutate` with what it does at once.
abbrev mutate : Item → Bool → Page → Page
mutate item remove p = record p { running = some (item, remove); feedback = silent }

abbrev told : Bool → Operation → Feedback
told true (item, true) = uninstalled item.slug
told true (item, false) = updated item.slug
told false (item, true) = uninstall_failed
told false (item, false) = update_failed

abbrev pub ended_by : Bool → Option Operation → Page → Page
ended_by success none p = p
ended_by success (some operation) p = record p {
  running = none;
  feedback = told success operation;
  confirmation = if success then none else p.confirmation;
}

-- The end of the operation.
unfoldable pub operation_done : Bool → Page → Page
operation_done success p = ended_by success p.running p

-- The confirmation of a row is there if it was asked for by the kind and the slug.
abbrev asks : Option Text → Item → Bool
asks none item = false
asks (some key) item = eq_text key (key_of item)

abbrev ask_for : Bool → Option Item → Page → Page
ask_for true (some item) p = record p { confirmation = some (key_of item) }
ask_for _ _ p = p

abbrev send : Bool → Option Item → Bool → Page → Page × Option Operation
send true (some item) remove p = (mutate item remove p, some (item, remove))
send _ _ _ p = (p, none)

abbrev asks_row : Option Text → Option Item → Bool
asks_row key none = false
asks_row key (some item) = asks key item

module _ (lower : Text → Text) where
  unfoldable pub visible : Installed → Page → List Item
  visible q p =
      keep
        (λ item.
          of_kind p.kind item
          && (of_client p.client item && includes (lower item.slug) (lower (trim p.search))))
        (all_items q)

  abbrev pub row : Installed → ℕ → Page → Option Item
  row q n p = row_of n (visible q p)

  abbrev pub has_confirmation : Installed → ℕ → Page → Bool
  has_confirmation q n p = asks_row p.confirmation (row q n p)

  unfoldable pub ask_uninstall : Installed → ℕ → Page → Page
  ask_uninstall q n p = ask_for (not (disabled q p)) (row q n p) p

  unfoldable pub cancel_uninstall : Installed → ℕ → Page → Page
  cancel_uninstall q n p =
      if has_confirmation q n p && not (is_some p.running)
      then record p { confirmation = none }
      else p

  unfoldable pub update : Installed → ℕ → Page → Page × Option Operation
  update q n p = send (not (disabled q p)) (row q n p) false p

  unfoldable pub uninstall : Installed → ℕ → Page → Page × Option Operation
  uninstall q n p = send (has_confirmation q n p && not (disabled q p)) (row q n p) true p
