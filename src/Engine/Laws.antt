-- ===== src/Engine/Laws.antt =====
-- What the generation loop relies on of the device code, and greedy decoding as a specification.
use glmserve.Prelude.{
  ℕ, zero, suc, ◌≡◌, ◌≢◌, ◌≤◌, Bool, List, [], ◌∷◌, ◌++◌, if◌then◌else◌, length, take,
}
use glmserve.Engine.{Request, Run, stopped, is_stop_token, record_token, finish}
use glmserve.Engine.Spec.{Trunk, argmax_logits}

-- The greedy tokens after a context and each prefix of a chunk behind it.
abbrev pub nexts : (List ℕ → ℕ) → List ℕ → List ℕ → List ℕ
nexts next ctx [] = []
nexts next ctx (t ∷ ts) = next (ctx ++ t ∷ []) ∷ nexts next (ctx ++ t ∷ []) ts

-- `Holds d ctx`: the rows of the trunk's cache are those of the tokens `ctx`. A prefill may keep the
-- first rows where they are those of its own tokens; a decode step and a verify chunk append, and
-- answer with the greedy token after each position; the MTP block does not touch the trunk.
pub record TrunkLaws (T : Trunk) : Type 1 where
  pub next : List ℕ → ℕ
  pub Holds : T.Device → List ℕ → Type 0
  pub set_law :
      (d : T.Device) (rows : List ℕ) (on : Bool)
      → Holds d rows
      → Holds (T.set_mtp_prefill_absorb on d) rows
  pub prefill_law :
      (d : T.Device) (rows tokens : List ℕ) (reuse : ℕ)
      → Holds d rows
      → tokens ≢ []
      → suc reuse ≤ length tokens
      → reuse ≤ length rows
      → take reuse rows ≡ take reuse tokens
      → Holds (T.forward_gpu_prefill_from tokens reuse d).1 tokens
        × (argmax_logits T (T.forward_gpu_prefill_from tokens reuse d).0 ≡ next tokens)
  pub decode_law :
      (d : T.Device) (ctx : List ℕ) (tok : ℕ)
      → Holds d ctx
      → Holds (T.forward_gpu_decode tok (length ctx) d).1 (ctx ++ tok ∷ [])
        × (argmax_logits T (T.forward_gpu_decode tok (length ctx) d).0 ≡ next (ctx ++ tok ∷ []))
  pub chunk_law :
      (d : T.Device) (ctx chunk : List ℕ)
      → Holds d ctx
      → Holds (T.forward_gpu_chunk_greedy chunk (length ctx) d).1 (ctx ++ chunk)
        × ((T.forward_gpu_chunk_greedy chunk (length ctx) d).0 ≡ nexts next ctx chunk)
  pub rewind_law :
      (d : T.Device) (rows : List ℕ) (n : ℕ)
      → Holds d rows
      → n ≤ length rows
      → Holds (T.gpu_rewind n d) (take n rows)
  pub absorb_law :
      (d : T.Device) (rows tokens : List ℕ) (row0 : ℕ)
      → Holds d rows
      → Holds (T.mtp_gpu_absorb tokens row0 d) rows
  pub draft_law :
      (d : T.Device) (rows : List ℕ) (seed k : ℕ)
      → Holds d rows
      → Holds (T.mtp_gpu_draft seed k d).1 rows
  pub cur_len_law : (d : T.Device) (rows : List ℕ) → Holds d rows → T.gpu_cur_len d ≡ length rows

-- Plain greedy decoding of at most so many tokens: the specification that knows no drafts, no
-- cache and no device.
unfoldable pub greedy : (List ℕ → ℕ) → Request → ℕ → Run → Run
greedy next p zero r = r
greedy next p (suc n) r =
    let tok = next r.all_tokens in
    let (r', go_on) = record_token p r tok in
    let rest = greedy next p n r' in
    if is_stop_token p tok then finish r stopped else if go_on then rest else r'
