-- ===== src/Server/Execution/Limits.antt =====
-- src/server.rs: when the output limit and the output budget refuse the result of a tool.
use intermcp.Prelude.{
  ℕ, ◌+◌, ◌-◌, ◌^◌, ◌<◌, ◌≡◌, refl, sym, ap, ◌∙◌, arith, Text, Bool, true, false, not, ◌&&◌, Option,
  none, some, List, [], ◌∷◌, ◌++◌, inl, inr, ltb, len, sum, is_empty, Bool-cases, Option-cases,
  saturating_add,
}
use intermcp.Error.{Result, ok, err, is_ok, FastMcpError}
use intermcp.Protocol.Results.{ContentItem, text, image, resource, CallToolResult}
use intermcp.Guardrails.{GuardrailPolicy, chars, drop_old, record_output}
use intermcp.Guardrails.Bounds.{chars-append}
use intermcp.Policy.Engine.{PolicyEngine, is_enforcing, check_output_size}
use intermcp.Server.State.{Server, Host, Surroundings, Refusal, failed}
use intermcp.Json.{Value}
use intermcp.Server.Execution.{
  total_output_bytes, output_gate, output_with, record_texts, budget_gate, budget_with,
}

-- An enforcing policy allows fewer bytes of output than the contents have.
abbrev pub over_limit : CallToolResult → Option PolicyEngine → Bool
over_limit r none = false
over_limit r (some e) =
    is_enforcing e.policy.mode
    && ltb e.policy.limits.max_output_bytes (total_output_bytes r.content)

-- The bytes of the texts among the contents.
abbrev pub text_sizes : List ContentItem → List ℕ
text_sizes [] = []
text_sizes (text t ∷ is) = len t ∷ text_sizes is
text_sizes (image bytes mime_type ∷ is) = text_sizes is
text_sizes (resource r ∷ is) = text_sizes is

-- What the guardrail has recorded, without the entries at its front that are over an hour old.
abbrev pub last_hour : ℕ → GuardrailPolicy → ℕ
last_hour now p = chars (drop_old now p.char_history)

abbrev over : Option ℕ → List ℕ → ℕ → Bool
over none sizes used = false
over (some budget) sizes used = not (is_empty sizes) && ltb budget (used + sum sizes)

-- There is a text, and with all texts there is more in the last hour than the budget.
abbrev pub over_budget : ℕ → CallToolResult → Option GuardrailPolicy → Bool
over_budget now r none = false
over_budget now r (some p) = over p.max_session_chars (text_sizes r.content) (last_hour now p)

-- A budget is a number of 64 bits, and not the largest one.
abbrev pub HasBudget : Option GuardrailPolicy → Type 0
HasBudget none = Unit
HasBudget (some p) = (budget : ℕ) → p.max_session_chars ≡ some budget → budget < 2 ^ 64 - 1

drop_old-snoc :
    (now n : ℕ) (h : List (ℕ × ℕ))
    → drop_old now (h ++ (now, n) ∷ []) ≡ drop_old now h ++ (now, n) ∷ []
unfolding drop_old
drop_old-snoc now n [] = ground arith
drop_old-snoc now n ((t, m) ∷ h) = ground (arith, drop_old-snoc now n h)

drop_old-drop_old : (now : ℕ) (h : List (ℕ × ℕ)) → drop_old now (drop_old now h) ≡ drop_old now h
unfolding drop_old
drop_old-drop_old now [] = refl
drop_old-drop_old now ((t, n) ∷ h) = ground (arith, drop_old-drop_old now h)

-- The history after a text that is let through.
recorded_hour :
    (now n : ℕ) (h : List (ℕ × ℕ))
    → chars (drop_old now (drop_old now h ++ (now, n) ∷ [])) ≡ chars (drop_old now h) + n
recorded_hour now n h =
    rw (drop_old-snoc, drop_old-drop_old, chars-append (drop_old now h)) (omega arith)

over-cons :
    (budget n used : ℕ) (sizes : List ℕ)
    → ltb budget (used + n) ≡ false
    → over (some budget) (n ∷ sizes) used ≡ over (some budget) sizes (used + n)
over-cons budget n used [] h = ground arith
over-cons budget n used (m ∷ sizes) h = ground arith

over-more :
    (budget n used : ℕ) (sizes : List ℕ)
    → ltb budget (used + n) ≡ true
    → over (some budget) (n ∷ sizes) used ≡ true
over-more budget n used sizes h = ground arith

module _ (now : ℕ) (t : Text) (p : GuardrailPolicy) where
  unbudgeted : p.max_session_chars ≡ none → record_output now t p ≡ (p, ok tt)
  unfolding record_output
  unbudgeted h = ground arith

  text_over :
      (budget : ℕ)
      → p.max_session_chars ≡ some budget
      → budget < 2 ^ 64 - 1
      → ltb budget (last_hour now p + len t) ≡ true
      → is_ok (record_output now t p).1 ≡ false
  unfolding record_output saturating_add
  text_over budget h fits o = ground arith

  text_within :
      (budget : ℕ)
      → p.max_session_chars ≡ some budget
      → budget < 2 ^ 64 - 1
      → ltb budget (last_hour now p + len t) ≡ false
      → record_output now t p
        ≡ (record p { char_history = drop_old now p.char_history ++ (now, len t) ∷ [] }, ok tt)
  unfolding record_output saturating_add
  text_within budget h fits o = ground arith

module _ (host : Host) (around : Surroundings) (name : Text) (arguments : Value) where
  texts : List ContentItem → GuardrailPolicy → GuardrailPolicy × Result (Unit {0}) Refusal
  texts = record_texts host around name arguments

  -- The loop behind the record of a text.
  next :
      List ContentItem
      → GuardrailPolicy × Result (Unit {0}) FastMcpError
      → GuardrailPolicy × Result (Unit {0}) Refusal
  next is (p, ok u) = texts is p
  next is (p, err e) = (p, err (failed e))

  refused_text :
      (t : Text) (is : List ContentItem) (p : GuardrailPolicy)
      → is_ok (record_output around.output_time t p).1 ≡ false
      → is_ok (texts (text t ∷ is) p).1 ≡ false
  unfolding texts record_texts
  refused_text t is p h = ground arith

  texts-unbudgeted :
      (is : List ContentItem) (p : GuardrailPolicy)
      → p.max_session_chars ≡ none
      → is_ok (texts is p).1 ≡ true
  unfolding texts record_texts
  texts-unbudgeted [] p h = refl
  texts-unbudgeted (text t ∷ is) p h =
      ground (arith, unbudgeted around.output_time t p h, texts-unbudgeted is p h)
  texts-unbudgeted (image bytes mime_type ∷ is) p h = texts-unbudgeted is p h
  texts-unbudgeted (resource r ∷ is) p h = texts-unbudgeted is p h

  texts-budgeted :
      (is : List ContentItem) (p : GuardrailPolicy) (budget : ℕ)
      → p.max_session_chars ≡ some budget
      → budget < 2 ^ 64 - 1
      → is_ok (texts is p).1
        ≡ not (over (some budget) (text_sizes is) (last_hour around.output_time p))
  unfolding texts record_texts next
  texts-budgeted [] p budget h fits = refl
  texts-budgeted (text t ∷ is) p budget h fits =
      let now = around.output_time in
      elim (Bool-cases (ltb budget (last_hour now p + len t))) [
        | inl o ↦
            refused_text t is p (text_over now t p budget h fits o)
            ∙ ap not (sym (over-more budget (len t) (last_hour now p) (text_sizes is) o))
        | inr w ↦
            let p' = record p { char_history = drop_old now p.char_history ++ (now, len t) ∷ [] } in
            ap (λ (x : GuardrailPolicy × Result (Unit {0}) FastMcpError). is_ok (next is x).1)
              (text_within now t p budget h fits w)
            ∙ texts-budgeted is p' budget h fits
            ∙ ap (λ u. not (over (some budget) (text_sizes is) u))
                (recorded_hour now (len t) p.char_history)
            ∙ ap not (sym (over-cons budget (len t) (last_hour now p) (text_sizes is) w))
      ]
  texts-budgeted (image bytes mime_type ∷ is) p budget h fits = texts-budgeted is p budget h fits
  texts-budgeted (resource r ∷ is) p budget h fits = texts-budgeted is p budget h fits

  pub output_gate_lem :
      (r : CallToolResult) (s : Server)
      → is_ok (output_gate host around name arguments r s).1 ≡ not (over_limit r s.policy_engine)
  unfolding output_gate output_with check_output_size
  output_gate_lem r s = ground arith

  budget_with_lem :
      (o : Option GuardrailPolicy) (r : CallToolResult) (s : Server)
      → HasBudget o
      → is_ok (budget_with host around name arguments o r s).1
        ≡ not (over_budget around.output_time r o)
  unfolding budget_with texts
  budget_with_lem none r s h = refl
  budget_with_lem (some p) r s h =
      let verdict : Option ℕ → Bool =
        λ o. not (over o (text_sizes r.content) (last_hour around.output_time p)) in
      elim (Option-cases p.max_session_chars) [
        | inl e ↦ texts-unbudgeted r.content p e ∙ ap verdict (sym e)
        | inr (budget, e) ↦ texts-budgeted r.content p budget e (h budget e) ∙ ap verdict (sym e)
      ]

  pub budget_gate_lem :
      (r : CallToolResult) (s : Server)
      → HasBudget s.guardrail
      → is_ok (budget_gate host around name arguments r s).1
        ≡ not (over_budget around.output_time r s.guardrail)
  unfolding budget_gate
  budget_gate_lem r s h = budget_with_lem s.guardrail r s h
