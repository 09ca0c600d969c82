-- ===== src/JsonString/Written.antt =====
-- What `WriteJson` writes is a body of every grammar that allows its pieces, and stands for the text.
use mathlib.Core.Path.{subst}
use ffjson.JsonString.Body.{Grammar, Transparent, write_round-IsRound}
use ffjson.JsonString.Coerce.{to_runes, coerce}
use ffjson.JsonString.{write_round, write_loop, write_json}
use ffjson.Prelude.{
  ℕ, zero, suc, ◌≤◌, ◌≡◌, refl, ◌∙◌, [], ◌∷◌, ◌++◌, append_assoc, append-nil, arith, Bytes, length,
}

module _ (G : Bytes → Bytes → Type 0) (g : Grammar G) where
  plain_body : (run : Bytes) → Transparent G g run → G run (run ++ [])
  plain_body run h = subst (λ x. G x (run ++ [])) (append-nil run) (h [] [] g.done)

  -- The loop writes a string body that stands for `run` and then the runes of `s`.
  write_loop-Grammar :
      (fuel : ℕ) (run s out : Bytes)
      → length s ≤ fuel
      → Transparent G g run
      → (body : Bytes) × (write_loop fuel run s out ≡ out ++ body) × G body (run ++ to_runes fuel s)
  unfolding write_loop to_runes
  write_loop-Grammar fuel run [] out lt h = (run, refl, plain_body run h)
  write_loop-Grammar zero run (b ∷ t) out lt h = absurd (omega arith)
  write_loop-Grammar (suc fuel) run (b ∷ t) out lt h =
      let st = write_round run b t in
      let round = write_round-IsRound G g run h b t in
      let (body, written, k) =
        write_loop-Grammar fuel st.0 st.1 (out ++ st.2) (omega (arith, round.shorter))
          round.plain_run in
      (
        st.2 ++ body,
        written ∙ append_assoc out st.2 body,
        rw (← round.rest_is) (round.decodes body (to_runes fuel st.1) k),
      )

  pub write_json-Grammar :
      (buf s : Bytes)
      → (body : Bytes) × (write_json buf s ≡ buf ++ b'"' ∷ (body ++ b'"' ∷ [])) × G body (coerce s)
  unfolding write_json coerce
  write_json-Grammar buf s =
      let (body, written, k) =
        write_loop-Grammar (length s) [] s (buf ++ b'"' ∷ []) (omega arith) (λ body d k. k) in
      (body, rw (written, append_assoc, append_assoc), k)
