-- ===== src/Dsa/Tests.antt =====
-- The indices of sparse attention handed over for two tokens.
use glmserve.Prelude.{◌≡◌, refl, true, false, List, [], ◌∷◌, none, some, ℕ, arith}
use glmserve.Prelude.Int.{pos, minus_one}
use glmserve.Prelude.Bytes.{codes}
use glmserve.Dsa.{DsaConfig, shared_dsa_layer, send_indices, receive_indices, flat, flat_row}
use glmserve.Dsa.Handover.{receive_indices-send_indices}

-- Layer 1 uses the indices of layer 0.
abbrev config : DsaConfig
config = record {
  use_dsa = true;
  index_topk = 2;
  indexer_types = codes "full" ∷ codes "shared" ∷ codes "full" ∷ [];
}

abbrev indices : List (List ℕ)
indices = (4 ∷ 0 ∷ []) ∷ (3 ∷ []) ∷ []

send_test : send_indices config 2 5 0 1 indices ≡ some (pos 4 ∷ pos 0 ∷ pos 3 ∷ minus_one ∷ [])
unfolding send_indices shared_dsa_layer flat flat_row
send_test = refl

-- With no row for a token the stage sends nothing, and the next one waits.
stalled_test : receive_indices config 2 5 false 1 (send_indices config 2 5 0 1 []) ≡ none
unfolding send_indices receive_indices shared_dsa_layer
stalled_test = refl

receive_indices-send_indices_example :
    receive_indices config 2 5 false 1 (send_indices config 2 5 0 1 indices) ≡ some indices
unfolding shared_dsa_layer
receive_indices-send_indices_example =
    receive_indices-send_indices config 2 5 0 1 indices refl (omega arith)
