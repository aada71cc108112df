-- ===== src/Engine/Requests.antt =====
-- Whole requests on the GPU path, one after another.
use glmserve.Prelude.{ℕ, ◌≡◌, ◌≤◌, true, false, List, length, take}
use glmserve.Engine.{Request, Run, start}
use glmserve.Engine.Spec.{Trunk, SpecConfig, Sampling, Loop, mtp_gpu, argmax_logits}
use glmserve.Engine.Generate.{EngineState, run, completes}
use glmserve.Engine.Laws.{TrunkLaws}

module _ (T : Trunk) (laws : TrunkLaws T) where
  open laws use {next, Holds, set_law, prefill_law, absorb_law, cur_len_law}

  -- The device holds rows that begin with the committed tokens.
  pub record IsResident (e : EngineState T) : Type 0 where
    pub rows : List ℕ
    pub holds : Holds e.device rows
    pub short : length e.gpu_committed ≤ length rows
    pub begins : take (length e.gpu_committed) rows ≡ e.gpu_committed

  -- The state before the first round, for any token limit.
  record Begun (p : Request) (prompt : List ℕ) (s : Loop T) : Type 0 where
    run_is : s.run ≡ start prompt
    holds : Holds s.device prompt
    seed_is : mtp_gpu T p ≡ true → s.seed ≡ next prompt
    logits_are : mtp_gpu T p ≡ false → argmax_logits T s.logits ≡ next prompt
    inactive : mtp_gpu T p ≡ false → s.active ≡ false

  -- What the request leaves, and what the client gets.
  pub record Served (cfg : SpecConfig) (e : EngineState T) (q : Sampling T) (p : Request)
      (prompt : List ℕ) (goal : Run) : Type 0 where
    pub after : EngineState T
    pub last : Loop T
    pub run_is : run T cfg e q p prompt ≡ completes after last
    pub client_sees : last.run ≡ goal
    pub resident : IsResident after
