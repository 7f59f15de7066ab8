-- ===== src/Panel/Closing.antt =====
-- When the side panel closes.
use plugin_pocket.Base.{
  ◌+◌, ◌≡◌, refl, ◌⊎◌, inl, inr, Bool, true, false, arith, if◌then◌else◌, if_cases,
}
use plugin_pocket.Panel.{
  Handler, Panel, opened, open_change, takes_key, escape_key_down, after_key, press_escape, toggle,
  register_escape, is_handler, unregister_escape, press_close,
}

-- A use of the panel: what the user and the content do, with the lock at that time.
pub data Event : Type 0 where
  opening closing escaping toggling : Bool → Event
  registering unregistering : Bool → Handler → Event

abbrev pub happen : Event → Panel → Panel
happen (opening locked) p = open_change locked true p
happen (closing locked) p = if p.is_open then press_close locked p else p
happen (escaping locked) p = if p.is_open then press_escape locked p else p
happen (toggling locked) p = if p.is_open then toggle p else p
happen (registering locked h) p = register_escape h p
happen (unregistering locked h) p = unregister_escape h p

abbrev pub lock_of : Event → Bool
lock_of (opening locked) = locked
lock_of (closing locked) = locked
lock_of (escaping locked) = locked
lock_of (toggling locked) = locked
lock_of (registering locked h) = locked
lock_of (unregistering locked h) = locked

-- A closed panel is not in full screen.
abbrev pub IsTidy : Panel → Type 0
IsTidy p = p.is_open ≡ false → p.fullscreen ≡ false

pub data Reach (p : Panel) : Panel → Type 0 where
  here : Reach p p
  step : {q : Panel} → Reach p q → (e : Event) → Reach p (happen e q)

open_change-IsTidy :
    (locked next : Bool) (p : Panel) → IsTidy p → IsTidy (open_change locked next p)
unfolding open_change
open_change-IsTidy true true p t = λ e. cc
open_change-IsTidy false true p t = λ e. cc
open_change-IsTidy true false p t = t
open_change-IsTidy false false p t = λ e. refl

press_escape-IsTidy : (locked : Bool) (p : Panel) → IsTidy p → IsTidy (press_escape locked p)
unfolding press_escape escape_key_down
press_escape-IsTidy locked p t =
    if_cases (λ (r : Panel × Bool). IsTidy (after_key locked r)) (takes_key p.local_escape) (λ _. t)
      (λ _.
        if_cases (λ (r : Panel × Bool). IsTidy (after_key locked r)) p.fullscreen (λ _ e. refl)
          (λ _. open_change-IsTidy locked false p t))

press_close-IsTidy : (locked : Bool) (p : Panel) → IsTidy p → IsTidy (press_close locked p)
unfolding press_close
press_close-IsTidy true p t = t
press_close-IsTidy false p t = open_change-IsTidy false false p t

happen-IsTidy : (e : Event) (p : Panel) → IsTidy p → IsTidy (happen e p)
unfolding toggle register_escape unregister_escape press_close
happen-IsTidy (opening locked) p t = open_change-IsTidy locked true p t
happen-IsTidy (closing locked) p t =
    if_cases IsTidy p.is_open (λ _. press_close-IsTidy locked p t) (λ _. t)
happen-IsTidy (escaping locked) p t =
    if_cases IsTidy p.is_open (λ _. press_escape-IsTidy locked p t) (λ _. t)
happen-IsTidy (toggling locked) p t =
    if_cases IsTidy p.is_open (λ shown e. absurd (ground arith)) (λ _. t)
happen-IsTidy (registering locked h) p t = t
happen-IsTidy (unregistering locked h) p t =
    if_cases IsTidy (is_handler h.id p.local_escape) (λ _. t) (λ _. t)

Reach-IsTidy : {p q : Panel} → Reach p q → IsTidy p → IsTidy q
Reach-IsTidy here t = t
Reach-IsTidy (step {q} r e) t = happen-IsTidy e q (Reach-IsTidy r t)

opened-IsTidy : (b : Bool) → IsTidy (opened b)
unfolding opened
opened-IsTidy b e = refl

-- Whatever is done with a panel, whenever it is opened again from being closed it is not in full
-- screen.
pub Reach-open_change :
    (has_trigger locked : Bool) {q : Panel}
    → Reach (opened has_trigger) q
    → q.is_open ≡ false
    → ((open_change locked true q).is_open ≡ true)
      × ((open_change locked true q).fullscreen ≡ false)
unfolding open_change
Reach-open_change has_trigger locked r shut =
    let tidy = Reach-IsTidy r (opened-IsTidy has_trigger) shut in (ground arith, ground arith)

-- What an event does to a panel that is locked or not at that time: it leaves it open or closed as it
-- was, or it opens it, both without a call of `onClose`; or, without the lock, it closes it.
abbrev pub IsCounted : Bool → Panel → Panel → Type 0
IsCounted locked p q =
    ((q.is_open ≡ p.is_open) × (q.closed ≡ p.closed))
    ⊎ ((q.is_open ≡ true) × (q.closed ≡ p.closed))
    ⊎ ((locked ≡ false)
        × (p.is_open ≡ true)
        × (q.is_open ≡ false)
        × (q.closed ≡ p.closed + 1)
        × (q.fullscreen ≡ false))

open_change-IsCounted :
    (locked : Bool) (p : Panel) → p.is_open ≡ true → IsCounted locked p (open_change locked false p)
unfolding open_change
open_change-IsCounted true p shown = inl (refl, refl)
open_change-IsCounted false p shown = inr (inr (refl, shown, refl, refl, refl))

press_close-IsCounted :
    (locked : Bool) (p : Panel) → p.is_open ≡ true → IsCounted locked p (press_close locked p)
unfolding press_close
press_close-IsCounted true p shown = inl (refl, refl)
press_close-IsCounted false p shown = open_change-IsCounted false p shown

press_escape-IsCounted :
    (locked : Bool) (p : Panel) → p.is_open ≡ true → IsCounted locked p (press_escape locked p)
unfolding press_escape escape_key_down
press_escape-IsCounted locked p shown =
    if_cases (λ (r : Panel × Bool). IsCounted locked p (after_key locked r))
      (takes_key p.local_escape) (λ _. inl (refl, refl))
      (λ _.
        if_cases (λ (r : Panel × Bool). IsCounted locked p (after_key locked r)) p.fullscreen
          (λ _. inl (refl, refl)) (λ _. open_change-IsCounted locked p shown))

opening-IsCounted : (locked : Bool) (p : Panel) → IsCounted locked p (open_change locked true p)
unfolding open_change
opening-IsCounted true p = inr (inl (refl, refl))
opening-IsCounted false p = inr (inl (refl, refl))

-- Of all that the user and the content can do with a panel, only an event without the lock closes
-- it, in which case it was open, leaves the full screen, and `onClose` is called once; nothing else
-- calls that, and while locked an open panel stays open.
pub happen-IsCounted : (e : Event) (p : Panel) → IsCounted (lock_of e) p (happen e p)
unfolding toggle register_escape unregister_escape
happen-IsCounted (opening locked) p = opening-IsCounted locked p
happen-IsCounted (closing locked) p =
    if_cases (IsCounted locked p) p.is_open (λ shown. press_close-IsCounted locked p shown)
      (λ _. inl (refl, refl))
happen-IsCounted (escaping locked) p =
    if_cases (IsCounted locked p) p.is_open (λ shown. press_escape-IsCounted locked p shown)
      (λ _. inl (refl, refl))
happen-IsCounted (toggling locked) p =
    if_cases (IsCounted locked p) p.is_open (λ _. inl (refl, refl)) (λ _. inl (refl, refl))
happen-IsCounted (registering locked h) p = inl (refl, refl)
happen-IsCounted (unregistering locked h) p =
    if_cases (IsCounted locked p) (is_handler h.id p.local_escape) (λ _. inl (refl, refl))
      (λ _. inl (refl, refl))
