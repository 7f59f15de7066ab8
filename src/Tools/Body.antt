-- ===== src/Tools/Body.antt =====
-- web/src/features/operations/ToolEditor.tsx: what holds of the body that the editor sends.
use plugin_pocket.Base.{
  ◌≡◌, ◌≢◌, ◌⊎◌, inl, inr, refl, sym, ap, true, false, not, Option, none, some, Text, codes,
  eq_text, eq_text_sound, Bool-cases, true_of_not, ok, bind-eq-ok, reject, reject-eq-ok,
  ok-injective, err-ne-ok, Result-cases,
}
use plugin_pocket.Settlement.{
  Json, null, boolean, number, string, array, object, Members, get, RuleDraft, settlement_value,
}
use plugin_pocket.Settlement.Rules.{IsRule, settlement_value-IsRule}
use plugin_pocket.Tools.Connection.{IsConfig, config_at-IsConfig}
use plugin_pocket.Tools.{
  Web, Kind, builtin, http, stdio, Tool, Problem, bad_schema, schema_type, Editor,
  replace_connection, json_object, Config, config_of, ToolBody, settlement_of, lifted,
  is_object_type, body_of, submit,
}

module _ (web : Web) where
  abbrev pub IsSettlement : Kind → RuleDraft → Option Members → Type 0
  IsSettlement kind rule none = kind ≡ builtin
  IsSettlement kind rule (some ms) = (kind ≢ builtin) × IsRule web.js rule.mode rule ms

  -- What is known of a body that is sent.
  pub record IsBody (t : Option Tool) (e : Editor) (body : ToolBody) : Type 0 where
    pub schema : get (codes "type") body.input_schema ≡ some (string (codes "object"))
    pub connection :
        ((replace_connection t e ≡ false) × (body.config ≡ none))
        ⊎ ((replace_connection t e ≡ true)
            × IsConfig web e.connection_mode e.form.kind e.form body.config)
    pub rule : IsSettlement e.form.kind e.rule body.settlement
    pub kind : body.kind ≡ e.form.kind

  lifted-IsRule :
      (kind : Kind) (rule : RuleDraft) {o : Option Members}
      → kind ≢ builtin
      → lifted (settlement_value web.js rule) ≡ ok o
      → IsSettlement kind rule o
  lifted-IsRule kind rule other h = elim (Result-cases (settlement_value web.js rule)) [
    | inl (p, e) ↦ absurd (err-ne-ok (rw e at h))
    | inr (ms, e) ↦
        rw (sym (ok-injective (rw e at h))) (other, settlement_value-IsRule web.js rule ms e)
  ]

  settlement_of-IsSettlement :
      (kind : Kind) (rule : RuleDraft) {o : Option Members}
      → settlement_of web.js kind rule ≡ ok o
      → IsSettlement kind rule o
  unfolding settlement_of
  settlement_of-IsSettlement builtin rule h = rw (sym (ok-injective h)) refl
  settlement_of-IsSettlement http rule h = lifted-IsRule http rule (λ e. cc) h
  settlement_of-IsSettlement stdio rule h = lifted-IsRule stdio rule (λ e. cc) h

  is_object_type-eq :
      (o : Option Json) → not (is_object_type o) ≡ false → o ≡ some (string (codes "object"))
  is_object_type-eq none h = cc
  is_object_type-eq (some null) h = cc
  is_object_type-eq (some (boolean b)) h = cc
  is_object_type-eq (some (number n)) h = cc
  is_object_type-eq (some (array js)) h = cc
  is_object_type-eq (some (object ms)) h = cc
  is_object_type-eq (some (string s)) h =
      ap (λ (r : Text). some (string r))
        (eq_text_sound s (codes "object") (true_of_not (eq_text s (codes "object")) h))

  config_of_cases :
      (t : Option Tool) (e : Editor) {c : Option Config}
      → config_of web t e ≡ ok c
      → ((replace_connection t e ≡ false) × (c ≡ none))
        ⊎ ((replace_connection t e ≡ true) × IsConfig web e.connection_mode e.form.kind e.form c)
  unfolding config_of
  config_of_cases t e h = elim (Bool-cases (replace_connection t e)) [
    | inl r ↦ inr (r, config_at-IsConfig web e.connection_mode e.form.kind e.form (rw r at h))
    | inr r ↦ inl (r, sym (ok-injective (rw r at h)))
  ]

  body_of-IsBody :
      (t : Option Tool) (e : Editor) {body : ToolBody} → body_of web t e ≡ ok body → IsBody t e body
  unfolding body_of
  body_of-IsBody t e h =
      let (schema, parsed, h) =
        bind-eq-ok (json_object web.js e.form.input_schema bad_schema) _ h in
      let (u, typed, h) =
        bind-eq-ok (reject (not (is_object_type (get (codes "type") schema))) schema_type) _ h in
      let (config, connected, h) = bind-eq-ok (config_of web t e) _ h in
      let (settlement, settled, h) = bind-eq-ok (settlement_of web.js e.form.kind e.rule) _ h in
      rw (sym (ok-injective h)) (record {
        schema =
            is_object_type-eq (get (codes "type") schema)
              (reject-eq-ok (not (is_object_type (get (codes "type") schema))) schema_type typed);
        connection = config_of_cases t e connected;
        rule = settlement_of-IsSettlement e.form.kind e.rule settled;
        kind = refl;
      })

  cleared-IsBody :
      (t : Option Tool) (e : Editor) (body : ToolBody)
      → IsBody t (record e { validation = none }) body
      → IsBody t e body
  unfolding replace_connection
  cleared-IsBody t e body b = record {
    schema = b.schema;
    connection = b.connection;
    rule = b.rule;
    kind = b.kind;
  }

  -- What a submit does: either it shows a problem and sends nothing, or it shows none and sends a
  -- body whose schema has the type `object`; which keeps a saved connection unless the form replaces
  -- it, and then has what the form's kind asks for: nothing for a builtin tool, the parsed object of
  -- the JSON mode, an address by HTTP or HTTPS without credentials whose one authorization header
  -- is that of the token, if there is one (where the browser takes `Authorization` to lower case as
  -- it should), or a command that is not blank; and which has a valid settlement rule exactly if the
  -- tool is not builtin.
  pub submit_cases :
      (t : Option Tool) (e : Editor)
      → ((p : Problem) × (submit web t e ≡ (record e { validation = some p }, none)))
        ⊎ ((body : ToolBody) × (submit web t e ≡ (record e { validation = none }, some body))
            × IsBody t e body)
  unfolding submit
  submit_cases t e = elim (Result-cases (body_of web t (record e { validation = none }))) [
    | inl (p, h) ↦ inl (p, rw h refl)
    | inr (body, h) ↦ inr (
      body,
      rw h refl,
      cleared-IsBody t e body (body_of-IsBody t (record e { validation = none }) h),
    )
  ]
