-- ===== src/Prompt/Fit.antt =====
-- The prompt that `build` returns is the longest suffix of the conversation that fits, under all the
-- system messages.
use Prim.Native.Nat.add
use native.Mathlib.Nat.{add-zero}
use llamacodelab.Prelude.{
  ℕ, zero, suc, ◌+◌, ◌-◌, ◌≤◌, ◌<◌, true, false, List, [], ◌∷◌, none, some, if◌then◌else◌, ◌==◌,
  leb, Bytes, length, ◌≡◌, ◌≢◌, refl, sym, ap, subst, ◌∙◌, inl, inr, arith, Option-cases,
  Bool-cases, ==_iff, leb→le, is_empty-ne, ==-ne,
}
use native.Mathlib.Decide.{dec_lt}
use llamacodelab.Prelude.Result.{Error, Result, ok, err, invalid_argument, Result-cases}
use llamacodelab.Prelude.Loop.{Flow, Ends, Round, iterate-Ends}
use llamacodelab.Chat.{ChatMessage}
use llamacodelab.Prompt.{
  ChatModel, BuiltPrompt, Retained, is_conversation, erase_oldest, shrink, round, build,
}

-- The messages without the `n` oldest that are no system messages.
pub drop_oldest : ℕ → List ChatMessage → List ChatMessage
drop_oldest zero ms = ms
drop_oldest (suc n) [] = []
drop_oldest (suc n) (m ∷ ms) = elim (is_conversation m) [
  | true ↦ drop_oldest n ms
  | false ↦ m ∷ drop_oldest (suc n) ms
]

pub system_messages : List ChatMessage → List ChatMessage
system_messages [] = []
system_messages (m ∷ ms) = if is_conversation m then system_messages ms else m ∷ system_messages ms

system_messages-drop_oldest :
    (n : ℕ) (ms : List ChatMessage) → system_messages (drop_oldest n ms) ≡ system_messages ms
unfolding drop_oldest system_messages
system_messages-drop_oldest zero ms = refl
system_messages-drop_oldest (suc n) [] = refl
system_messages-drop_oldest (suc n) (m ∷ ms) =
    ground (arith, system_messages-drop_oldest n ms, system_messages-drop_oldest (suc n) ms)

drop_oldest-nil : (n : ℕ) → drop_oldest n [] ≡ []
unfolding drop_oldest
drop_oldest-nil zero = refl
drop_oldest-nil (suc n) = refl

module _ (n : ℕ) (m : ChatMessage) (ms : List ChatMessage) where
  drop_oldest_conversation :
      is_conversation m ≡ true → drop_oldest (suc n) (m ∷ ms) ≡ drop_oldest n ms
  unfolding drop_oldest
  drop_oldest_conversation e = ground arith

  drop_oldest_system :
      is_conversation m ≡ false → drop_oldest (suc n) (m ∷ ms) ≡ m ∷ drop_oldest (suc n) ms
  unfolding drop_oldest
  drop_oldest_system e = ground arith

drop_oldest-zero : (ms : List ChatMessage) → drop_oldest 0 ms ≡ ms
unfolding drop_oldest
drop_oldest-zero ms = refl

drop_oldest-drop_oldest :
    (n k : ℕ) (ms : List ChatMessage) → drop_oldest k (drop_oldest n ms) ≡ drop_oldest (n + k) ms
drop_oldest-drop_oldest zero k ms = rw (drop_oldest-zero ms, add.zero k) refl
drop_oldest-drop_oldest (suc n) k [] = simp drop_oldest-nil
drop_oldest-drop_oldest (suc n) zero (m ∷ ms) =
    rw (drop_oldest-zero (drop_oldest (suc n) (m ∷ ms)), add-zero (suc n)) refl
drop_oldest-drop_oldest (suc n) (suc k) (m ∷ ms) = elim (Bool-cases (is_conversation m)) [
  | inl e ↦
      rw
        (
          drop_oldest_conversation n m ms e,
          add.suc n (suc k),
          drop_oldest_conversation (n + suc k) m ms e,
        )
        (drop_oldest-drop_oldest n (suc k) ms)
  | inr e ↦
      rw
        (
          drop_oldest_system n m ms e,
          drop_oldest_system k m (drop_oldest (suc n) ms) e,
          add.suc n (suc k),
          drop_oldest_system (n + suc k) m ms e,
        )
        (ap (◌∷◌ m) (rw (add.suc n (suc k)) at (drop_oldest-drop_oldest (suc n) (suc k) ms)))
]

drop_oldest-one :
    (ms rest : List ChatMessage) → erase_oldest ms ≡ some rest → rest ≡ drop_oldest 1 ms
unfolding drop_oldest erase_oldest
drop_oldest-one [] rest e = cc
drop_oldest-one (m ∷ ms) rest e = elim (Option-cases (erase_oldest ms)) [
  | inl n ↦ ground arith
  | inr (r, s) ↦ ground (arith, drop_oldest-one ms r s)
]

drop_oldest-none : (k : ℕ) (ms : List ChatMessage) → erase_oldest ms ≡ none → drop_oldest k ms ≡ ms
unfolding drop_oldest erase_oldest
drop_oldest-none zero ms e = refl
drop_oldest-none (suc k) [] e = refl
drop_oldest-none (suc k) (m ∷ ms) e = ground (arith, drop_oldest-none (suc k) ms)

length-erase_oldest :
    (ms rest : List ChatMessage) → erase_oldest ms ≡ some rest → length rest + 1 ≡ length ms
unfolding erase_oldest
length-erase_oldest [] rest e = cc
length-erase_oldest (m ∷ ms) rest e = elim (Option-cases (erase_oldest ms)) [
  | inl n ↦ ground arith
  | inr (r, s) ↦ ground (arith, length-erase_oldest ms r s)
]

module _ (model : ChatModel) (max_prompt_tokens : ℕ) (messages : List ChatMessage) where
  -- Formatted with the assistant prefix, the candidate has `count` tokens.
  pub record HasTokens (candidate : List ChatMessage) (text : Bytes) (count : ℕ) : Type 0 where
    pub formatted : model.format candidate true ≡ ok text
    pub counted : model.count_tokens text ≡ ok count

  -- The candidate is over the budget.
  pub record TooLong (candidate : List ChatMessage) : Type 0 where
    pub text : Bytes
    pub count : ℕ
    pub tokens : HasTokens candidate text count
    pub over : max_prompt_tokens < count

  pub record Fits (p : BuiltPrompt) : Type 0 where
    pub tokens : HasTokens p.retained_messages p.text p.token_count
    pub within : p.token_count ≤ max_prompt_tokens
    pub latest : p.retained_messages ≡ drop_oldest p.discarded_messages messages
    pub needed : (k : ℕ) → k < p.discarded_messages → TooLong (drop_oldest k messages)

  -- The formatter or the counter threw `e`, or no choice but the empty one is within the budget.
  pub data Fails (e : Error) : Type 0 where
    formatting : (k : ℕ) → model.format (drop_oldest k messages) true ≡ err e → Fails e
    counting : (text : Bytes) → model.count_tokens text ≡ err e → Fails e
    nothing_fits :
        e ≡ invalid_argument
        → ((k : ℕ) → drop_oldest k messages ≢ [] → TooLong (drop_oldest k messages))
        → Fails e

  abbrev Needed : ℕ → Type 0
  Needed d = (k : ℕ) → k < d → TooLong (drop_oldest k messages)

  record Inv (s : Retained) : Type 0 where
    latest : s.retained ≡ drop_oldest s.discarded messages
    needed : Needed s.discarded

  abbrev RoundEnds : Retained → Result (Flow Retained BuiltPrompt) → Type 0
  RoundEnds s = Round Inv (λ s. length s.retained) (length s.retained) Fits Fails

  still-Needed : (d : ℕ) → Needed d → TooLong (drop_oldest d messages) → Needed (d + 1)
  still-Needed d h t k lt = elim (dec_lt k d) [
    | yes p ↦ h k p
    | no p ↦ let e : d ≡ k = omega arith in subst (λ j. TooLong (drop_oldest j messages)) e t
  ]

  -- Where dropping more from what `d` leaves leaves the same or nothing, nothing fits.
  all-Needed :
      (d : ℕ)
      → Needed d
      → TooLong (drop_oldest d messages)
      → ((j : ℕ)
          → drop_oldest j (drop_oldest d messages) ≢ []
          → drop_oldest j (drop_oldest d messages) ≡ drop_oldest d messages)
      → (k : ℕ) → drop_oldest k messages ≢ []
      → TooLong (drop_oldest k messages)
  all-Needed d h t same k ne = elim (dec_lt k d) [
    | yes p ↦ h k p
    | no p ↦
        let e : d + (k - d) ≡ k = omega arith in
        let split =
          drop_oldest-drop_oldest d (k - d) messages ∙ ap (λ j. drop_oldest j messages) e in
        subst TooLong (sym (same (k - d) (λ z. ne (sym split ∙ z))) ∙ split) t
  ]

  single :
      (ms rest : List ChatMessage) (j : ℕ)
      → erase_oldest ms ≡ some rest
      → length ms ≡ 1
      → drop_oldest j ms ≢ []
      → drop_oldest j ms ≡ ms
  unfolding drop_oldest erase_oldest
  single (m ∷ []) rest zero e l ne = refl
  single (m ∷ []) rest (suc j) e l ne = ground (arith, drop_oldest-nil j)
  single [] rest j e l ne = cc
  single (m ∷ n ∷ ms) rest j e l ne = absurd (omega arith)

  shrink-Round :
      (s : Retained) → Inv s → TooLong s.retained → RoundEnds s (shrink model max_prompt_tokens s)
  unfolding shrink
  shrink-Round s v t = elim (Option-cases (erase_oldest s.retained)) [
    | inl e ↦
        rw (e, shrink)
          (nothing_fits refl (
            all-Needed s.discarded v.needed (rw v.latest at t)
              (λ j _. drop_oldest-none j _ (rw v.latest at e))))
    | inr (rest, e) ↦ elim (Bool-cases (length s.retained == 1)) [
      | inl one ↦
          rw (e, shrink)
            (rw one (
              nothing_fits refl (
                all-Needed s.discarded v.needed (rw v.latest at t)
                  (λ j. single _ rest j (rw v.latest at e) (rw v.latest at ((==_iff _ _).0 one))))))
      | inr more ↦
          rw (e, shrink)
            (rw more (
              record {
                latest =
                    drop_oldest-one _ rest e
                    ∙ ap (drop_oldest 1) v.latest
                    ∙ drop_oldest-drop_oldest s.discarded 1 messages;
                needed = still-Needed s.discarded v.needed (rw v.latest at t);
              },
              omega (arith, length-erase_oldest _ rest e),
            ))
    ]
  ]

  round-Round : (s : Retained) → Inv s → RoundEnds s (round model max_prompt_tokens s)
  unfolding round
  round-Round s v = elim (Result-cases (model.format s.retained true)) [
    | inr (e, f) ↦ rw (f, round) (formatting s.discarded (rw v.latest at f))
    | inl (text, f) ↦ elim (Result-cases (model.count_tokens text)) [
      | inr (e, c) ↦ rw (f, round) (rw c (counting text c))
      | inl (n, c) ↦ elim (Bool-cases (leb n max_prompt_tokens)) [
        | inl fits ↦
            rw (f, round)
              (rw c (
                rw fits (record {
                  tokens = record { formatted = f; counted = c };
                  within = leb→le _ _ fits;
                  latest = v.latest;
                  needed = v.needed;
                })))
        | inr over ↦
            rw (f, round)
              (rw c (
                rw over (
                  shrink-Round s v (record {
                    text = text;
                    count = n;
                    tokens = record { formatted = f; counted = c };
                    over = ground arith;
                  }))))
      ]
    ]
  ]

  -- For a conversation and a positive budget `build` always ends. What it returns is the formatted
  -- prompt with its token count, within the budget; the messages left out are the oldest that are no
  -- system messages, and leaving out fewer is over the budget. What it throws comes from the
  -- formatter or the counter, or says that nothing but an empty prompt fits.
  pub build-Ends :
      messages ≢ []
      → 0 < max_prompt_tokens
      → Ends Fits Fails (build model max_prompt_tokens messages)
  unfolding build
  build-Ends some_message positive = rw (is_empty-ne messages some_message) (
      rw (==-ne max_prompt_tokens 0 (omega arith)) (
        iterate-Ends Inv (λ s. length s.retained) Fits Fails (round model max_prompt_tokens)
          round-Round (length messages + 1) _ (omega arith)
          (record {
            latest = sym (drop_oldest-zero messages);
            needed = λ k h. absurd (omega arith);
          })))

  build_input :
      (p : BuiltPrompt)
      → build model max_prompt_tokens messages ≡ some (ok p)
      → (messages ≢ []) × (0 < max_prompt_tokens)
  unfolding build
  build_input p e = ((λ none_given. ground arith), ground arith)

  -- No system message is ever left out, and they keep their order.
  pub build_system :
      (p : BuiltPrompt)
      → build model max_prompt_tokens messages ≡ some (ok p)
      → system_messages p.retained_messages ≡ system_messages messages
  build_system p e =
      let (some_message, positive) = build_input p e in
      let fits : Fits p = subst (Ends Fits Fails) e (build-Ends some_message positive) in
      rw fits.latest (system_messages-drop_oldest p.discarded_messages messages)
