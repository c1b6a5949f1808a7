-- ===== src/Harness/Chunks.antt =====
-- The lines that a loop gets from a harness do not depend on how its output is cut into reads.
use atzc.Prelude.{
  ℕ, zero, suc, ◌≤◌, ◌≡◌, refl, ap, sym, ◌∙◌, true, false, Bool, List, [], ◌∷◌, ◌++◌, some, length,
  arith, Option-cases, Bool-cases, inl, inr, append-nil, append_assoc,
}
use atzc.Prelude.Text.{Text}
use atzc.Lines.{take_line}
use atzc.Lines.Framing.{take_line_more, length-take_line}
use atzc.Harness.{Process, bytes, drop_cr, answered, Awaited, drain, await}
use atzc.Harness.Await.{
  drained, drained-none, drained_go, drained_stop, await_done, await-round, round,
}

unfoldable pub concat : List Text → Text
concat [] = []
concat (c ∷ cs) = c ++ concat cs

-- The next reads bring these bytes.
abbrev pub Brings : (P : Process) → P.State → List Text → Type 0
Brings P p [] = Unit
Brings P p (b ∷ bs) = ((P.read p).0 ≡ bytes b) × Brings P (P.read p).1 bs

module _ {A : Type 0} (on_line : A → Text → A × Bool) where
  -- `d` is what the inner loop leaves of a buffer, and `d'` what it leaves of the buffer with more
  -- bytes behind it.
  abbrev Resumes : Bool × A × Text → Bool × A × Text → Text → Type 0
  Resumes d d' b =
      (d.0 ≡ false → d' ≡ drained on_line d.1 (d.2 ++ b))
      × (d.0 ≡ true → d' ≡ (true, d.1, d.2 ++ b))

  -- By recursion on a bound of the buffer's length.
  resumes :
      (n : ℕ) (a : A) (buf b : Text)
      → length buf ≤ n
      → Resumes (drained on_line a buf) (drained on_line a (buf ++ b)) b
  unfolding drain
  resumes zero a [] b h = (λ e. refl, λ e. cc)
  resumes zero a (c ∷ s) b h = absurd (omega arith)
  resumes (suc n) a buf b h = elim (Option-cases (take_line buf)) [
    | inl e ↦ rw (drained-none on_line a buf e) (λ e. refl, λ e. cc)
    | inr ((line, rest), e) ↦
        let shorter = length-take_line buf line rest e in
        let more = take_line_more buf b line rest e in
        elim (Bool-cases (on_line a (drop_cr line)).1) [
          | inl stop ↦
              rw
                (
                  drained_stop on_line a buf line rest e stop,
                  drained_stop on_line a (buf ++ b) line (rest ++ b) more stop,
                )
                (λ e. cc, λ e. refl)
          | inr go ↦
              rw
                (
                  drained_go on_line a buf line rest e go,
                  drained_go on_line a (buf ++ b) line (rest ++ b) more go,
                )
                (resumes n (on_line a (drop_cr line)).0 rest b (omega arith))
        ]
  ]

  module _ (P : Process) (limit : ℕ) where
    open P use {State, read}

    -- Where the bytes of the buffer and of the reads hold the last line wanted, the loop ends with
    -- what one pass over all of them gives, however they are cut.
    pub await-Brings :
        (bs : List Text) (waited : ℕ) (a : A) (buf : Text) (p : State)
        → Brings P p bs
        → (drained on_line a (buf ++ concat bs)).0 ≡ true
        → (r : Awaited A State) × (await on_line P limit (suc (length bs)) waited a buf p ≡ some r)
          × (r.end ≡ answered)
          × (r.acc ≡ (drained on_line a (buf ++ concat bs)).1)
    unfolding concat
    await-Brings [] waited a buf p reads h =
        let whole : buf ++ [] ≡ buf = append-nil buf in
        (
          record {
            end = answered;
            acc = (drained on_line a buf).1;
            buf = (drained on_line a buf).2;
            proc = p;
          },
          await_done on_line P limit 0 waited a buf p (rw whole at h),
          refl,
          rw whole refl,
        )
    await-Brings (b ∷ bs) waited a buf p reads h =
        let (go, stop) = resumes (length buf) a buf (concat (b ∷ bs)) (omega arith) in
        elim (Bool-cases (drained on_line a buf).0) [
          | inl early ↦ (
            record {
              end = answered;
              acc = (drained on_line a buf).1;
              buf = (drained on_line a buf).2;
              proc = p;
            },
            await_done on_line P limit (length (b ∷ bs)) waited a buf p early,
            refl,
            ap (λ (x : Bool × A × Text). x.1) (sym (stop early)),
          )
          | inr more ↦
              let d = drained on_line a buf in
              let whole : drained on_line a (buf ++ (b ++ concat bs))
                  ≡ drained on_line d.1 ((d.2 ++ b) ++ concat bs) =
                go more ∙ ap (drained on_line d.1) (sym (append_assoc d.2 b (concat bs))) in
              let (r, e, end, acc) =
                await-Brings bs waited d.1 (d.2 ++ b) (read p).1 reads.1 (rw whole at h) in
              (
                r,
                await-round on_line P limit (suc (length bs)) waited a buf p more refl
                    ∙ ap (round on_line P limit (suc (length bs)) waited (read p).1 d.1 d.2) reads.0
                    ∙ e,
                end,
                acc ∙ ap (λ (x : Bool × A × Text). x.1) (sym whole),
              )
        ]
