-- ===== src/Dev/Commands.antt =====
-- What the commands of the development script do.
use plugin_pocket.Base.{ℕ, ◌≡◌, refl, ◌⊎◌, inl, true, Option, none, some, arith, ok}
use plugin_pocket.Dev.{
  Status, Contact, no_socket, refused, silent, broken, replied, control, up, Message, reported,
  failed_with, ended, Outcome, launched, already_running, is_running, main,
}

-- `up` ends well in two ways only: no socket was there and the new supervisor reported its services,
-- or there was one and its services run. So it starts nothing beside services that still run,
-- start or stop.
pub main-up :
    (at_status at_down : Contact) (message : Message) (tail : Option ℕ) (o : Outcome)
    → main up at_status at_down message tail ≡ ok o
    → ((s : Status) × (at_status ≡ no_socket) × (message ≡ reported s) × (o ≡ launched s))
      ⊎ ((s : Status) × (at_status ≡ replied (some s))
          × (is_running s.stage ≡ true)
          × (o ≡ already_running s))
unfolding main control
main-up no_socket at_down (reported s) tail o h = inl (s, refl, refl, cc)
main-up no_socket at_down (failed_with p) tail o h = cc
main-up no_socket at_down ended tail o h = cc
main-up refused at_down message tail o h = cc
main-up silent at_down message tail o h = cc
main-up broken at_down message tail o h = cc
main-up (replied none) at_down message tail o h = cc
main-up (replied (some s)) at_down message tail o h = ground arith
