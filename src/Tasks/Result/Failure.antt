-- ===== src/Tasks/Result/Failure.antt =====
-- The failure envelope: the loop of `failure` in vyuh/src/tasks/result.rs ends within the limit.
use Prim.Native.Nat.{compare}
use Prim.Native.String.len
use Prim.Native.String.{[], ◌∷◌, len, slice, ◌++◌ as text_append}
use text.Mathlib.Text.{is_char_boundary, is_eq}
use text.Mathlib.TextPositions.{slice-zero-zero, len-append, len_utf8-pos}
use text.Mathlib.TextLemmas.{append-nil, append_assoc}
use text.Mathlib.TextEquality.{slice-prefix}
use text.Mathlib.TextBridge.{IsPrefix}
use vyuh.Prelude.{
  ℕ, zero, suc, ◌+◌, ◌-◌, ◌/◌, ◌≤◌, ◌<◌, ◌≡◌, refl, ap, sym, ◌∙◌, subst, String, true, false, some,
  leb, unwrap_or, Bool-cases, ◌==◌, ==→eq, inl, inr, arith,
}
use vyuh.Tasks.Externals.{Externals}
use vyuh.Tasks.Result.{result_limit, floor_boundary, failure_text, shorten, failure_loop, failure}

-- What uuid and serde_json document of their texts: an id has the 36 bytes of the hyphenated form,
-- and the encoding of the empty text is a pair of quotes.
pub record TextLaws (x : Externals) : Type 0 where
  pub uuid_len : (id : ℕ) → len (x.uuid_text id) ≡ 36
  pub empty_text : x.json_text "" ≡ "\"\""

empty_lem : (s : String) → len s ≡ 0 → s ≡ ""
empty_lem [] e = refl
empty_lem (c ∷ s) e = absurd (omega (arith, (len_utf8-pos c).1, sym (len.cons c s) ∙ e))

at_boundary : (t : String) (n : ℕ) → is_eq (compare (len t) n) ≡ true → len t ≤ n
at_boundary t n h = ground arith

-- A message is cut at or below the position that is asked for.
cut-le : (s : String) (n : ℕ) → len (slice s 0 (floor_boundary s n)) ≤ n
unfolding floor_boundary
cut-le s zero = subst (λ t. len t ≤ 0) (sym (slice-zero-zero s)) (omega arith)
cut-le s (suc n) = elim (Bool-cases (is_char_boundary s (suc n))) [
  | inl e ↦ rw (e, floor_boundary) (at_boundary (slice s 0 (suc n)) (suc n) e)
  | inr e ↦ rw (e, floor_boundary) (omega (arith, cut-le s n))
]

module _ (x : Externals) (laws : TextLaws x) where
  empty-fits : (id : ℕ) (m : String) → len m ≡ 0 → len (failure_text x id m) ≤ result_limit
  unfolding failure_text
  empty-fits id m e =
      let m0 = empty_lem m e in
      let tail : String = text_append "\",\"message\":" (text_append "\"\"" "}}") in
      rw (m0, laws.empty_text)
        (omega (
          arith,
          len-append "{\"Err\":{\"task_id\":\"" (text_append (x.uuid_text id) tail),
          len-append (x.uuid_text id) tail,
          laws.uuid_len id,
        ))

  too_long :
      (id : ℕ) (message : String)
      → leb (len (failure_text x id message)) result_limit ≡ false
      → 0 < len message
  too_long id message e = elim (Bool-cases (len message == 0)) [
    | inl f ↦ absurd (ground (arith, e, empty-fits id message (==→eq (len message) 0 f)))
    | inr f ↦ ground (arith, f)
  ]

  -- A pass cuts the message.
  shorter :
      (id : ℕ) (message : String)
      → leb (len (failure_text x id message)) result_limit ≡ false
      → len (shorten x message (failure_text x id message)) < len message
  unfolding shorten
  shorter id message e =
      let long : ℕ = len (failure_text x id message) in
      let over : result_limit < long = ground (arith, e) in
      omega (
        arith,
        over,
        too_long id message e,
        cut-le message (len message - (long - result_limit + 5) / 6),
      )

  shorten-prefix :
      (id : ℕ) (message : String) → IsPrefix (shorten x message (failure_text x id message)) message
  unfolding shorten
  shorten-prefix id message = slice-prefix message _

  prefix_trans : (a b c : String) → IsPrefix a b → IsPrefix b c → IsPrefix a c
  prefix_trans a b c (u, p) (v, q) =
      (text_append u v, sym (append_assoc a u v) ∙ ap (λ t. text_append t v) p ∙ q)

  -- The envelope of a message, shortened where it has to be.
  pub record Enveloped (id : ℕ) (message result : String) : Type 0 where
    pub within : len result ≤ result_limit
    cut : String
    begins : IsPrefix cut message
    pub made : result ≡ failure_text x id cut
    pub whole : len (failure_text x id message) ≤ result_limit → result ≡ failure_text x id message

  enough :
      (passes id : ℕ) (message : String)
      → len message < passes
      → (result : String) × (failure_loop x passes id message ≡ some result)
        × Enveloped id message result
  unfolding failure_loop
  enough zero id message h = absurd (omega arith)
  enough (suc passes) id message h =
      elim (Bool-cases (leb (len (failure_text x id message)) result_limit)) [
        | inl e ↦ (
          failure_text x id message,
          rw (e, failure_loop) refl,
          record {
            within = ground (arith, e);
            cut = message;
            begins = ("", append-nil message);
            made = refl;
            whole = λ _. refl;
          },
        )
        | inr e ↦
            let next : String = shorten x message (failure_text x id message) in
            let (result, found, rest) =
              enough passes id next (ground (arith, shorter id message e, h)) in
            (
              result,
              rw (e, failure_loop) found,
              record {
                within = rest.within;
                cut = rest.cut;
                begins = prefix_trans rest.cut next message rest.begins (shorten-prefix id message);
                made = rest.made;
                whole = λ fits. absurd (ground (arith, e, fits));
              },
            )
      ]

  -- The loop ends: a failure's envelope always fits the limit, and reports the message itself where
  -- its envelope fits, and otherwise a text with which the message begins.
  pub failure-Enveloped : (id : ℕ) (message : String) → Enveloped id message (failure x id message)
  unfolding failure
  failure-Enveloped id message =
      let (result, found, made) = enough (suc (len message)) id message (omega arith) in
      subst (Enveloped id message) (sym (ap (λ o. unwrap_or o "") found)) made
