-- ===== src/Layout/Examples.antt =====
-- Runs of the replay map on a process of three allocations, the last of which no tensor refers to.
use coldsnap.Base.{ℕ, true, end, List, [], ◌∷◌, ◌≡◌, refl, ok, raised, pos}
use coldsnap.Layout.Allocations.{Tensor, ref_of}
use coldsnap.Layout.Replay.{
  Saved, ReplayMap, ambiguous_fingerprints, size_mismatch, key_error, cannot_place,
  semantic_replay_map,
}
use coldsnap.Layout.Correctness.{IsReplay, semantic_replay_map-IsReplay}

abbrev weight : Tensor
weight = record {
  name = "w";
  kind = "parameter";
  is_cuda = true;
  numel = 8;
  element_size = 2;
  data_ptr = 1008;
  storage_ptr = 1000;
  storage_bytes = 32;
  shape = pos 2 ∷ pos 4 ∷ [];
  stride = pos 4 ∷ pos 1 ∷ [];
  dtype = "bfloat16";
}

abbrev bias : Tensor
bias = record {
  name = "b";
  kind = "buffer";
  is_cuda = true;
  numel = 4;
  element_size = 4;
  data_ptr = 2000;
  storage_ptr = 2000;
  storage_bytes = 16;
  shape = pos 4 ∷ [];
  stride = pos 1 ∷ [];
  dtype = "float32";
}

abbrev fresh_process : List (ℕ × ℕ)
fresh_process = (1000, 64) ∷ (2000, 16) ∷ (3000, 8) ∷ []

-- The saved process held the two tensors at other addresses, the bias first.
abbrev saved_bias : Saved
saved_bias = record { refs = ref_of 2000 bias ∷ []; size = pos 16; others = end }

abbrev saved_weight : Saved
saved_weight = record { refs = ref_of 1000 weight ∷ []; size = pos 64; others = end }

abbrev toy_map : ReplayMap
toy_map = record {
  replay =
      record { target = 1; base = 2000; entry = saved_bias }
      ∷ record { target = 0; base = 1000; entry = saved_weight }
      ∷ [];
  extras = 2 ∷ [];
  semantic_matches = 2;
}

toy_returns :
    semantic_replay_map (saved_bias ∷ saved_weight ∷ []) fresh_process (weight ∷ bias ∷ [])
    ≡ ok toy_map
unfolding semantic_replay_map coldsnap.Base.insert
toy_returns = refl

semantic_replay_map-IsReplay_example :
    IsReplay (saved_bias ∷ saved_weight ∷ []) fresh_process (weight ∷ bias ∷ []) toy_map
semantic_replay_map-IsReplay_example =
    semantic_replay_map-IsReplay (saved_bias ∷ saved_weight ∷ []) fresh_process (weight ∷ bias ∷ [])
      toy_map toy_returns

-- A saved allocation to which no tensor referred has no place.
unreferenced_is_lost :
    semantic_replay_map (record { refs = []; size = pos 8; others = end } ∷ []) fresh_process []
    ≡ raised (key_error 0)
unfolding semantic_replay_map coldsnap.Base.insert
unreferenced_is_lost = refl

smaller_is_refused :
    semantic_replay_map
      (record { refs = ref_of 2000 bias ∷ []; size = pos 24; others = end } ∷ [])
      fresh_process
      (bias ∷ [])
    ≡ raised (size_mismatch 0)
unfolding semantic_replay_map coldsnap.Base.insert
smaller_is_refused = refl

twins_are_refused :
    semantic_replay_map (saved_bias ∷ saved_bias ∷ []) fresh_process (bias ∷ [])
    ≡ raised ambiguous_fingerprints
unfolding semantic_replay_map coldsnap.Base.insert
twins_are_refused = refl

gone_is_refused : semantic_replay_map (saved_bias ∷ []) fresh_process [] ≡ raised (cannot_place 0)
unfolding semantic_replay_map coldsnap.Base.insert
gone_is_refused = refl
