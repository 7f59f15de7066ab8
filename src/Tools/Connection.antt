-- ===== src/Tools/Connection.antt =====
-- web/src/features/operations/ToolEditor.tsx: what holds of the connection that the editor sends.
use plugin_pocket.Base.{
  ◌≡◌, ◌≢◌, ◌⊎◌, inl, inr, refl, sym, ap, ◌∙◌, Bool, true, false, not, ◌&&◌, Option, none, some,
  List, [], ◌∷◌, ◌++◌, arith, Text, codes, empty, eq_text, eq_text_iff, eq_text_sound, Bool-cases,
  or_false, true_of_not, keep, keys, insert, mem_text, trim, ok, ◌>>=◌, bind-eq-ok, reject,
  reject-eq-ok, ok-injective, err-ne-ok,
}
use plugin_pocket.Settlement.{Json, null, boolean, number, string, array, object, Members}
use plugin_pocket.Tools.{
  Address, Web, Kind, builtin, http, stdio, ConnectionMode, fields, json, Form, Problem, bad_config,
  bad_url, no_command, as_object, json_object, or_problem, Config, raw_config, http_config,
  stdio_config, bad_address, is_authorization, with_token, headers_of, http_fields, args_of, env_of,
  stdio_fields, config_at,
}

keep-keep-not : {A : Type 0} (p : A → Bool) (xs : List A) → keep p (keep (λ x. not (p x)) xs) ≡ []
keep-keep-not p [] = refl
keep-keep-not p (x ∷ xs) = elim (Bool-cases (p x)) [
  | inl e ↦ rw e (keep-keep-not p xs)
  | inr e ↦ rw e (rw e (keep-keep-not p xs))
]

insert_of_new :
    (k v : Text) (m : List (Text × Text))
    → mem_text k (keys m) ≡ false
    → insert k v m ≡ m ++ (k, v) ∷ []
unfolding insert
insert_of_new k v [] h = refl
insert_of_new k v ((j, w) ∷ m) h = ground (arith, insert_of_new k v m)

keep_snoc :
    {A : Type 0} (p : A → Bool) (xs : List A) (x : A)
    → p x ≡ true
    → keep p (xs ++ x ∷ []) ≡ keep p xs ++ x ∷ []
keep_snoc p [] x h = rw h refl
keep_snoc p (y ∷ ys) x h = ground (arith, keep_snoc p ys x h)

keep-insert_of_filtered :
    (p : Text × Text → Bool) (k v : Text) (m : List (Text × Text))
    → mem_text k (keys (keep (λ h. not (p h)) m)) ≡ false
    → p (k, v) ≡ true
    → keep p (insert k v (keep (λ h. not (p h)) m)) ≡ (k, v) ∷ []
keep-insert_of_filtered p k v m new there =
    let rest = keep (λ h. not (p h)) m in
    rw (insert_of_new k v rest new) (
      keep_snoc p rest (k, v) there
      ∙ ap (λ (xs : List (Text × Text)). xs ++ (k, v) ∷ []) (keep-keep-not p m))

or_problem-eq-ok :
    {A : Type 0} (p : Problem) (o : Option A) {a : A} → or_problem p o ≡ ok a → o ≡ some a
or_problem-eq-ok p none h = absurd (err-ne-ok h)
or_problem-eq-ok p (some x) h = ap some (ok-injective h)

as_object-eq-ok :
    (p : Problem) (o : Option Json) {ms : Members} → as_object p o ≡ ok ms → o ≡ some (object ms)
as_object-eq-ok p none h = absurd (err-ne-ok h)
as_object-eq-ok p (some null) h = absurd (err-ne-ok h)
as_object-eq-ok p (some (boolean b)) h = absurd (err-ne-ok h)
as_object-eq-ok p (some (number n)) h = absurd (err-ne-ok h)
as_object-eq-ok p (some (string s)) h = absurd (err-ne-ok h)
as_object-eq-ok p (some (array js)) h = absurd (err-ne-ok h)
as_object-eq-ok p (some (object ms)) h = ap (λ (ns : Members). some (object ns)) (ok-injective h)

eq-empty : (s : Text) → empty s ≡ true → s ≡ []
eq-empty [] h = refl
eq-empty (c ∷ s) h = cc

good_address :
    (a : Address)
    → bad_address a ≡ false
    → ((a.protocol ≡ codes "https:") ⊎ (a.protocol ≡ codes "http:"))
      × (a.username ≡ [])
      × (a.password ≡ [])
good_address a h =
    let one =
      or_false
        (not (eq_text a.protocol (codes "https:")) && not (eq_text a.protocol (codes "http:"))) _
        h in
    let two = or_false (not (empty a.username)) (not (empty a.password)) (one.1) in
    (
      elim (Bool-cases (eq_text a.protocol (codes "https:"))) [
        | inl e ↦ inl (eq_text_sound a.protocol (codes "https:") e)
        | inr n ↦ inr (
            eq_text_sound a.protocol (codes "http:")
              (true_of_not (eq_text a.protocol (codes "http:")) (rw n at (one.0))))
      ],
      eq-empty a.username (true_of_not (empty a.username) (two.0)),
      eq-empty a.password (true_of_not (empty a.password) (two.1)),
    )

module _ (web : Web) where
  abbrev pub authorization : Text
  authorization = codes "Authorization"

  not_listed :
      (m : List (Text × Text))
      → is_authorization web authorization ≡ true
      → mem_text authorization (keys (keep (λ h. not (is_authorization web h.0)) m)) ≡ false
  not_listed [] own = refl
  not_listed ((j, w) ∷ m) own = ground (
    arith,
    not_listed m own,
    eq_text_iff j authorization,
    λ (e : j ≡ authorization). ap (is_authorization web) e,
    own,
  )

  -- The headers that a form gives: those written in it, or, with a token, these without any
  -- authorization and with one that bears the token.
  pub IsHeaders : Form → List (Text × Text) → Type 0
  IsHeaders form headers =
      (written : List (Text × Text)) × (headers_of web.js form.headers ≡ ok written)
      × (headers ≡ with_token web form.token written)
      × (empty (trim form.token) ≡ false
          → is_authorization web authorization ≡ true
          → keep (λ h. is_authorization web h.0) headers
            ≡ (authorization, codes "Bearer " ++ trim form.token) ∷ [])

  with_token-authorization :
      (token : Text) (m : List (Text × Text))
      → empty (trim token) ≡ false
      → is_authorization web authorization ≡ true
      → keep (λ h. is_authorization web h.0) (with_token web token m)
        ≡ (authorization, codes "Bearer " ++ trim token) ∷ []
  unfolding with_token
  with_token-authorization token m there own = rw there (
      keep-insert_of_filtered (λ h. is_authorization web h.0) authorization
        (codes "Bearer " ++ trim token) m (not_listed m own) own)

  -- The connection that a form of each kind gives.
  pub IsHttp : Form → Config → Type 0
  IsHttp form config =
      (address : Address) × (headers : List (Text × Text)) × (web.parse_url form.url ≡ some address)
      × ((address.protocol ≡ codes "https:") ⊎ (address.protocol ≡ codes "http:"))
      × (address.username ≡ [])
      × (address.password ≡ [])
      × IsHeaders form headers
      × (config ≡ http_config (trim form.url) headers)

  pub IsStdio : Form → Config → Type 0
  IsStdio form config =
      (args : List Text) × (env : Option (List (Text × Text))) × (empty (trim form.command) ≡ false)
      × (args_of web.js form.args ≡ ok args)
      × (env_of web.js form.env ≡ ok env)
      × (config ≡ stdio_config (trim form.command) args env)

  abbrev pub IsConfig : ConnectionMode → Kind → Form → Option Config → Type 0
  IsConfig mode kind form none = kind ≡ builtin
  IsConfig json kind form (some config) =
      (kind ≢ builtin)
      × ((ms : Members) × (web.js.parse form.config ≡ some (object ms)) × (config ≡ raw_config ms))
  IsConfig fields builtin form (some config) = ⊥
  IsConfig fields http form (some config) = IsHttp form config
  IsConfig fields stdio form (some config) = IsStdio form config

  http_fields-IsHttp :
      (form : Form) {config : Config} → http_fields web form ≡ ok config → IsHttp form config
  unfolding http_fields IsHttp IsHeaders
  http_fields-IsHttp form h =
      let (address, parsed, h) = bind-eq-ok (or_problem bad_url (web.parse_url form.url)) _ h in
      let (u, sound, h) = bind-eq-ok (reject (bad_address address) bad_url) _ h in
      let (written, listed, h) = bind-eq-ok (headers_of web.js form.headers) _ h in
      let parts = good_address address (reject-eq-ok (bad_address address) bad_url sound) in
      (
        address,
        with_token web form.token written,
        or_problem-eq-ok bad_url (web.parse_url form.url) parsed,
        parts.0,
        parts.1,
        parts.2,
        (written, listed, refl, with_token-authorization form.token written),
        sym (ok-injective h),
      )

  stdio_fields-IsStdio :
      (form : Form) {config : Config} → stdio_fields web form ≡ ok config → IsStdio form config
  unfolding stdio_fields IsStdio
  stdio_fields-IsStdio form h =
      let (u, named, h) = bind-eq-ok (reject (empty (trim form.command)) no_command) _ h in
      let (args, listed, h) = bind-eq-ok (args_of web.js form.args) _ h in
      let (env, given, h) = bind-eq-ok (env_of web.js form.env) _ h in
      (
        args,
        env,
        reject-eq-ok (empty (trim form.command)) no_command named,
        listed,
        given,
        sym (ok-injective h),
      )

  raw-IsConfig :
      (kind : Kind) (form : Form) {c : Option Config}
      → kind ≢ builtin
      → (json_object web.js form.config bad_config >>= λ ms. ok (some (raw_config ms))) ≡ ok c
      → IsConfig json kind form c
  unfolding json_object
  raw-IsConfig kind form other h =
      let (ms, parsed, h) = bind-eq-ok (json_object web.js form.config bad_config) _ h in
      rw (sym (ok-injective h))
        (other, (ms, as_object-eq-ok bad_config (web.js.parse form.config) parsed, refl))

  pub config_at-IsConfig :
      (mode : ConnectionMode) (kind : Kind) (form : Form) {c : Option Config}
      → config_at web mode kind form ≡ ok c
      → IsConfig mode kind form c
  unfolding config_at
  config_at-IsConfig mode builtin form h = rw (sym (ok-injective h)) refl
  config_at-IsConfig json http form h = raw-IsConfig http form (λ e. cc) h
  config_at-IsConfig json stdio form h = raw-IsConfig stdio form (λ e. cc) h
  config_at-IsConfig fields http form h =
      let (config, here, h) = bind-eq-ok (http_fields web form) _ h in
      rw (sym (ok-injective h)) (http_fields-IsHttp form here)
  config_at-IsConfig fields stdio form h =
      let (config, here, h) = bind-eq-ok (stdio_fields web form) _ h in
      rw (sym (ok-injective h)) (stdio_fields-IsStdio form here)
