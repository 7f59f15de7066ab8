-- ===== src/Panel.antt =====
-- web/src/components/SidePanel.tsx: a dialog at the side that can be locked and shown in full
-- screen, and that lets its content take the Escape key. The dialog of the library calls the
-- handlers here; an Escape that no handler prevents closes it. Focus is not modelled.
pub mod Closing
mod Tests
use plugin_pocket.Base.{
  ℕ, ◌+◌, Bool, true, false, not, ◌&&◌, ◌||◌, Option, none, some, ◌==◌, if◌then◌else◌, is_some,
}

-- A local handler of Escape: the number of its registration, and whether it takes the key.
pub record Handler : Type 0 where
  pub id : ℕ
  pub takes : Bool

-- `closed` counts the calls of `onClose`.
pub record Panel : Type 0 where
  pub is_open : Bool
  pub fullscreen : Bool
  pub local_escape : Option Handler
  pub closed : ℕ

-- `useState(!trigger)` and `useState(false)`
unfoldable pub opened : Bool → Panel
opened has_trigger = record {
  is_open = not has_trigger;
  fullscreen = false;
  local_escape = none;
  closed = 0;
}

-- `onOpenChange`
unfoldable pub open_change : Bool → Bool → Panel → Panel
open_change locked next p =
    if not next && locked
    then p
    else if next
    then record p { is_open = true }
    else record p { is_open = false; fullscreen = false; closed = p.closed + 1 }

abbrev pub takes_key : Option Handler → Bool
takes_key none = false
takes_key (some h) = h.takes

-- `onEscapeKeyDown`: the panel, and whether the key's default is prevented.
unfoldable pub escape_key_down : Panel → Panel × Bool
escape_key_down p =
    if takes_key p.local_escape
    then (p, true)
    else if p.fullscreen
    then (record p { fullscreen = false }, true)
    else (p, false)

abbrev pub after_key : Bool → Panel × Bool → Panel
after_key locked (p, true) = p
after_key locked (p, false) = open_change locked false p

-- An Escape in the open dialog: the handler, then the dialog's own closing.
unfoldable pub press_escape : Bool → Panel → Panel
press_escape locked p = after_key locked (escape_key_down p)

-- The button at the top, and `toggle` of the context
unfoldable pub toggle : Panel → Panel
toggle p = record p { fullscreen = not p.fullscreen }

unfoldable pub register_escape : Handler → Panel → Panel
register_escape h p = record p { local_escape = some h }

abbrev pub is_handler : ℕ → Option Handler → Bool
is_handler n none = false
is_handler n (some h) = h.id == n

-- What `registerEscape` returns.
unfoldable pub unregister_escape : Handler → Panel → Panel
unregister_escape h p =
    if is_handler h.id p.local_escape then record p { local_escape = none } else p

-- The close button, which a lock disables.
unfoldable pub press_close : Bool → Panel → Panel
press_close locked p = if locked then p else open_change locked false p

-- What is shown: the trigger, and the dialog's buttons where it is open.
pub record Dialog : Type 0 where
  pub fullscreen : Bool
  pub pressed : Bool
  pub close_disabled : Bool

unfoldable pub dialog : Bool → Panel → Option Dialog
dialog locked p =
    if p.is_open
    then some
        (record { fullscreen = p.fullscreen; pressed = p.fullscreen; close_disabled = locked })
    else none
