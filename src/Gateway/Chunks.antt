-- ===== src/Gateway/Chunks.antt =====
-- The extractor of apps/llm-gateway/src/usage.ts does not depend on how a stream is cut into chunks.
-- The reference is a scanner that reads one code unit at a time.
use combo.Prelude.Texts.{Text}
use combo.Gateway.Pricing.{TokenUsage}
use combo.Prelude.{
  ◌==◌, if◌then◌else◌, Bool-cases, Option-cases, length, ℕ, zero, suc, ◌≤◌, ◌≡◌, refl, sym, ap, ◌∙◌,
  inl, inr, false, Option, none, some, List, [], ◌∷◌, ◌++◌, arith,
}
use combo.Gateway.Json.{Json}
use mathlib.Core.List.{append_assoc, append-nil}
use combo.Gateway.Usage.{newline, read_line, cut_line, Extractor, new_extractor, drain, push}

unfoldable pub flatten : List Text → Text
flatten [] = []
flatten (t ∷ ts) = t ++ flatten ts

module _ (parse : Text → Option Json) where
  -- One code unit: a newline ends the line, all else is added to it.
  abbrev take_unit : ℕ → Extractor → Extractor
  take_unit c s =
      if c == newline
      then record { buffer = []; usage = read_line parse s.buffer s.usage }
      else record s { buffer = s.buffer ++ c ∷ [] }

  unfoldable pub scan : Text → Extractor → Extractor
  scan [] s = s
  scan (c ∷ cs) s = scan cs (take_unit c s)

  scan-append : (a b : Text) (s : Extractor) → scan (a ++ b) s ≡ scan b (scan a s)
  unfolding scan
  scan-append [] b s = refl
  scan-append (c ∷ cs) b s = scan-append cs b (take_unit c s)

  cut_line-none :
      (b : Text) (s : Extractor)
      → cut_line b ≡ none
      → scan b s ≡ record s { buffer = s.buffer ++ b }
  unfolding scan cut_line
  cut_line-none [] s h = rw (append-nil s.buffer) refl
  cut_line-none (c ∷ cs) s h = elim (Option-cases (cut_line cs)) [
    | inr (x, hx) ↦ absurd (ground arith)
    | inl hx ↦ elim (Bool-cases (c == newline)) [
      | inl hc ↦ absurd (ground arith)
      | inr hc ↦
          let ih = cut_line-none cs (record s { buffer = s.buffer ++ c ∷ [] }) hx in
          rw (hc, ih, append_assoc s.buffer (c ∷ []) cs) refl
    ]
  ]

  cut_line-some :
      (b line later : Text) (s : Extractor)
      → cut_line b ≡ some (line, later)
      → (scan b s
          ≡ scan later (record { buffer = []; usage = read_line parse (s.buffer ++ line) s.usage }))
        × (suc (length later) ≤ length b)
  unfolding scan cut_line
  cut_line-some [] line later s h = absurd (ground arith)
  cut_line-some (c ∷ cs) line later s h = elim (Bool-cases (c == newline)) [
    | inl hc ↦
        let hl : line ≡ [] = ground arith in
        let hr : later ≡ cs = ground arith in
        (rw (hc, hl, hr, append-nil s.buffer) refl, rw hr (omega arith))
    | inr hc ↦ elim (Option-cases (cut_line cs)) [
      | inl hx ↦ absurd (ground arith)
      | inr ((l, r), hx) ↦
          let hl : line ≡ c ∷ l = ground arith in
          let hr : later ≡ r = ground arith in
          let (ih, shorter) = cut_line-some cs l r (record s { buffer = s.buffer ++ c ∷ [] }) hx in
          (
            rw (hc, hl, hr, ih, append_assoc s.buffer (c ∷ []) l) refl,
            rw hr (omega (arith, shorter)),
          )
    ]
  ]

  drain-scan :
      (fuel : ℕ) (b : Text) (u : Option TokenUsage)
      → length b ≤ fuel
      → drain parse fuel (record { buffer = b; usage = u })
        ≡ scan b (record { buffer = []; usage = u })
  unfolding drain scan
  drain-scan zero [] u h = refl
  drain-scan zero (c ∷ cs) u h = absurd (omega (arith, h))
  drain-scan (suc fuel) b u h = elim (Option-cases (cut_line b)) [
    | inl hx ↦
        let stop : drain parse (suc fuel) (record { buffer = b; usage = u })
            ≡ record { buffer = b; usage = u } =
          rw (hx, drain) refl in
        stop ∙ sym (cut_line-none b (record { buffer = []; usage = u }) hx)
    | inr ((line, later), hx) ↦
        let (same, shorter) = cut_line-some b line later (record { buffer = []; usage = u }) hx in
        let again : drain parse (suc fuel) (record { buffer = b; usage = u })
            ≡ drain parse fuel (record { buffer = later; usage = read_line parse line u }) =
          rw (hx, drain) refl in
        again
        ∙ drain-scan fuel later (read_line parse line u) (omega (arith, shorter, h))
        ∙ sym same
  ]

  cut_line-add :
      (b : Text) (c : ℕ)
      → cut_line b ≡ none
      → (c == newline) ≡ false
      → cut_line (b ++ c ∷ []) ≡ none
  unfolding cut_line
  cut_line-add [] c h hc = rw hc refl
  cut_line-add (x ∷ xs) c h hc = elim (Option-cases (cut_line xs)) [
    | inr (y, hy) ↦ absurd (ground arith)
    | inl hy ↦ let ih = cut_line-add xs c hy hc in ground arith
  ]

  -- No newline is left in the buffer.
  cut_line-scan :
      (b : Text) (s : Extractor) → cut_line s.buffer ≡ none → cut_line (scan b s).buffer ≡ none
  unfolding scan cut_line
  cut_line-scan [] s h = h
  cut_line-scan (c ∷ cs) s h = elim (Bool-cases (c == newline)) [
    | inl hc ↦ cut_line-scan cs (take_unit c s) (rw hc refl)
    | inr hc ↦ cut_line-scan cs (take_unit c s) (rw hc (cut_line-add s.buffer c h hc))
  ]

  push-scan :
      (text : Text) (s : Extractor) → cut_line s.buffer ≡ none → push parse text s ≡ scan text s
  unfolding push
  push-scan text s h =
      drain-scan (length (s.buffer ++ text)) (s.buffer ++ text) s.usage (omega arith)
      ∙ scan-append s.buffer text (record { buffer = []; usage = s.usage })
      ∙ ap (scan text) (cut_line-none s.buffer (record { buffer = []; usage = s.usage }) h)

  unfoldable pub push_all : List Text → Extractor → Extractor
  push_all [] s = s
  push_all (t ∷ ts) s = push_all ts (push parse t s)

  push_all-scan :
      (chunks : List Text) (s : Extractor)
      → cut_line s.buffer ≡ none
      → push_all chunks s ≡ scan (flatten chunks) s
  unfolding scan flatten push_all
  push_all-scan [] s h = refl
  push_all-scan (t ∷ ts) s h =
      rw (push-scan t s h, scan-append t (flatten ts) s)
        (push_all-scan ts (scan t s) (cut_line-scan t s h))

-- However a stream is cut into chunks, pushing them one after another into a new extractor leaves
-- it with the buffer and the usage that one push of the whole stream leaves.
pub push_all-flatten :
    (parse : Text → Option Json) (chunks : List Text)
    → push_all parse chunks new_extractor ≡ push parse (flatten chunks) new_extractor
unfolding cut_line
push_all-flatten parse chunks =
    push_all-scan parse chunks new_extractor refl
    ∙ sym (push-scan parse (flatten chunks) new_extractor refl)
