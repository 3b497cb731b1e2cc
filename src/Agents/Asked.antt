-- ===== src/Agents/Asked.antt =====
-- The tool call that the operator is asked about and the one that a node looks for, both the first
-- of their kind in a message (`_pending_result` and `_make_hitl_node` of the two agents).
use deep_agent_test.Prelude.{
  ◌≡◌, refl, sym, ap, ◌∙◌, String, true, false, some, List, ◌∷◌, find_first, find_first_holds,
  text_eq, eq_iff, arith, Bool-cases, inl, inr,
}
use deep_agent_test.Agents.{ToolCall, is_named, member}

pub text_eq_sym : (s t : String) → text_eq s t ≡ text_eq t s
text_eq_sym s t = ground (arith, eq_iff s t, eq_iff t s)

-- One call is the first with a name of the list and the first with the name of the tool.
pub record IsCommon (names : List String) (tool : String) (calls : List ToolCall) : Type 0 where
  pub call : ToolCall
  pub shown : find_first (λ c. member c.name names) calls ≡ some call
  pub executed : find_first (is_named tool) calls ≡ some call

module _ (names : List String) where
  pub asked-name :
      (name given : String) → text_eq name given ≡ true → member given names ≡ member name names
  asked-name name given same =
      ap (λ (n : String). member n names) (sym ((eq_iff name given).0 same))

  pub here-IsCommon :
      (tool : String) (call : ToolCall) (calls : List ToolCall)
      → text_eq call.name tool ≡ true
      → member call.name names ≡ true
      → IsCommon names tool (call ∷ calls)
  here-IsCommon tool call calls named asked = record {
    call = call;
    shown = rw asked refl;
    executed = rw named refl;
  }

  -- A call of another tool is passed over by both.
  pub later-IsCommon :
      (tool : String) (call : ToolCall) (calls : List ToolCall)
      → member call.name names ≡ false
      → IsCommon names tool calls
      → IsCommon names tool (call ∷ calls)
  later-IsCommon tool call calls other h = record {
    call = h.call;
    shown = rw other h.shown;
    executed = elim (Bool-cases (text_eq call.name tool)) [
      | inl same ↦ absurd (clash same)
      | inr differs ↦ rw differs h.executed
    ];
  }
    where
      clash : text_eq call.name tool ≡ true → ⊥
      clash same =
          let a : call.name ≡ tool = (eq_iff call.name tool).0 same in
          let b : h.call.name ≡ tool =
            (eq_iff h.call.name tool).0
              (find_first_holds (is_named tool) h.call calls h.executed) in
          let c : member h.call.name names ≡ true =
            find_first_holds (λ d. member d.name names) h.call calls h.shown in
          cc (b ∙ sym a, c, other)
