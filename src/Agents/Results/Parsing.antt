-- ===== src/Agents/Results/Parsing.antt =====
-- `_parse_llm_output` of src/infrastructure/bo_triage_use_case.py and fo_triage_use_case.py.
use deep_agent_test.Prelude.{
  ℕ, ◌≡◌, refl, ap, ◌∙◌, ◌⊎◌, inl, inr, Bool, true, false, not, Option, none, some, List, [], ◌∷◌,
  ◌++◌, arith,
}
use deep_agent_test.Result.{ok, err, type_error}
use deep_agent_test.Domain.Text.{codes, starts_with, contains}
use deep_agent_test.Domain.Json.{Json}
use deep_agent_test.Agents.{Content, AgentMessage}
use deep_agent_test.Domain.Triage.{Diagnosis}
use deep_agent_test.Agents.Results.{
  Presenter, is_space, strip_left, strip_right, keep_if, or_whole, strip, fence, until_fence,
  from_brace, unfenced, json_text, final_message, read_json, parse_final, parse_llm_output,
}

abbrev pub is_object : Json → Bool
is_object (Json.obj m) = true
is_object _ = false

-- Why an exception leaves `_parse_llm_output`.
pub record IsIndexed (p : Presenter) (messages : List AgentMessage) : Type 0 where
  pub content : Content
  pub value : Json
  pub final : final_message messages ≡ some content
  pub read : p.loads (json_text (p.content_text content)) ≡ some value
  pub no_object : is_object value ≡ false

module _ (p : Presenter) (messages : List AgentMessage) where
  read_json_cases :
      (content : Content) (o : Option Json)
      → p.loads (json_text (p.content_text content)) ≡ o
      → final_message messages ≡ some content
      → ((d : Diagnosis) × (read_json p content o ≡ ok d))
        ⊎ ((read_json p content o ≡ err type_error) × IsIndexed p messages)
  unfolding read_json
  read_json_cases content none e f = inl (_, refl)
  read_json_cases content (some (Json.obj m)) e f = inl (_, refl)
  read_json_cases content (some j) e f =
      inr (refl, record { content = content; value = j; final = f; read = e; no_object = refl })

  parse_final_cases :
      (o : Option Content)
      → final_message messages ≡ o
      → ((d : Diagnosis) × (parse_final p o ≡ ok d))
        ⊎ ((parse_final p o ≡ err type_error) × IsIndexed p messages)
  unfolding parse_final
  parse_final_cases none e = inl (_, refl)
  parse_final_cases (some content) e = read_json_cases content _ refl e

  -- `_parse_llm_output` either returns a diagnosis, or it raises TypeError, and then the final
  -- message of the model holds a JSON value that is no object.
  pub parse_llm_output_lem :
      ((d : Diagnosis) × (parse_llm_output p messages ≡ ok d))
      ⊎ ((parse_llm_output p messages ≡ err type_error) × IsIndexed p messages)
  unfolding parse_llm_output
  parse_llm_output_lem = parse_final_cases (final_message messages) refl

strip_right-append :
    (xs ys : List ℕ) (y : ℕ)
    → strip_right (y ∷ ys) ≡ y ∷ ys
    → strip_right (xs ++ y ∷ ys) ≡ xs ++ y ∷ ys
unfolding strip_right
strip_right-append [] ys y h = h
strip_right-append (x ∷ []) ys y h = ap (keep_if (not (is_space x)) x) h
strip_right-append (x ∷ z ∷ zs) ys y h =
    ap (keep_if (not (is_space x)) x) (strip_right-append (z ∷ zs) ys y h)

strip_right-newline : (xs : List ℕ) → strip_right (xs ++ 10 ∷ []) ≡ strip_right xs
unfolding strip_right
strip_right-newline [] = refl
strip_right-newline (x ∷ xs) = rw (strip_right-newline xs) refl

starts_with-newline :
    (x : ℕ) (xs ys : List ℕ) → starts_with (x ∷ xs ++ 10 ∷ ys) fence ≡ starts_with (x ∷ xs) fence
starts_with-newline x [] ys = ground arith
starts_with-newline x (y ∷ []) ys = ground arith
starts_with-newline x (y ∷ z ∷ xs) ys = refl

until_fence-append :
    (xs : List ℕ) → contains xs fence ≡ false → until_fence (xs ++ (10 ∷ fence)) ≡ xs ++ 10 ∷ []
unfolding until_fence contains
until_fence-append [] h = refl
until_fence-append (x ∷ xs) h =
    ground (arith, starts_with-newline x xs fence, until_fence-append xs)

strip_left-solid : (c : ℕ) (cs : List ℕ) → is_space c ≡ false → strip_left (c ∷ cs) ≡ c ∷ cs
unfolding strip_left
strip_left-solid c cs h = rw h refl

-- The text between the fences, which stands on lines of its own.
unfenced-fenced :
    (rest : List ℕ)
    → contains (b'{' ∷ rest) fence ≡ false
    → strip_right (b'{' ∷ rest) ≡ b'{' ∷ rest
    → unfenced (codes "```json\n" ++ (b'{' ∷ rest ++ (10 ∷ fence))) ≡ b'{' ∷ rest
unfolding unfenced strip_right contains
unfenced-fenced rest free solid =
    ap (λ (t : List ℕ). keep_if true b'{' (strip_right t)) (until_fence-append rest inner)
    ∙ ap (keep_if true b'{') (strip_right-newline rest)
    ∙ solid
  where
    inner : contains rest fence ≡ false
    inner = ground (arith, free)

-- A JSON text that begins with a brace, does not end in white space and contains no fence is read
-- whole from a message that gives it between the fences "```json" and "```" on lines of their own.
pub json_text-fenced :
    (rest : List ℕ)
    → contains (b'{' ∷ rest) fence ≡ false
    → strip_right (b'{' ∷ rest) ≡ b'{' ∷ rest
    → json_text (codes "```json\n" ++ (b'{' ∷ rest ++ (10 ∷ fence))) ≡ b'{' ∷ rest
unfolding json_text from_brace strip strip_right
json_text-fenced rest free solid =
    ap (λ (t : List ℕ). or_whole t (from_brace t))
      (ap unfenced bare ∙ unfenced-fenced rest free solid)
  where
    text : List ℕ
    text = codes "```json\n" ++ (b'{' ∷ rest)

    bare : strip (text ++ (10 ∷ fence)) ≡ text ++ (10 ∷ fence)
    bare = strip_right-append text fence 10 refl
