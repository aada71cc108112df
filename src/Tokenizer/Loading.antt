-- ===== src/Tokenizer/Loading.antt =====
-- What `load` and `load_bpe` of src/tokenizer.cpp leave, whatever tokenizer.json holds.
use glmserve.Prelude.{
  ℕ, ◌≡◌, refl, ap, false, Option, none, some, List, [], ◌∷◌, ◌⊎◌, inl, inr, Bool-cases,
}
use glmserve.Prelude.Int.{ℤ}
use glmserve.Prelude.Bytes.{Bytes, codes}
use glmserve.Prelude.Result.{Result, ok, err, Gives, gives, fails}
use glmserve.Json as Json
use glmserve.Json.Parser.{
  Value, Values, no_values, value_then, Members, no_members, member_then, parse,
}
use glmserve.Json.Access.{obj, get_string}
use glmserve.Tokenizer.{
  Tokenizer, new_tokenizer, byte, bpe, read_vocab, read_added, read_root, load_bpe, load, is_empty,
  add_special, Loaded, mode_of, load_vocab, load_model, load_parsed, check_vocab, fill_byte_maps,
  build_byte_maps,
}
use glmserve.Tokenizer.ByteMaps.{byte_maps}

-- The byte maps as they are before a vocabulary is read.
NoMaps : Tokenizer → Type 0
NoMaps t = (t.byte_encoder ≡ []) × (t.byte_decoder ≡ [])

-- What BPE mode needs.
pub record IsReady (t : Tokenizer) : Type 0 where
  pub some_tokens : is_empty t.vocab ≡ false
  pub encoder : t.byte_encoder ≡ byte_maps.0
  pub decoder : t.byte_decoder ≡ byte_maps.1

module _ {Num : Type 0} (to_int : Num → ℤ) where
  read_vocab-NoMaps : (m : Members Num) (t : Tokenizer) → NoMaps t → NoMaps (read_vocab to_int m t)
  unfolding read_vocab NoMaps
  read_vocab-NoMaps no_members t h = h
  read_vocab-NoMaps (member_then token id rest) t h = read_vocab-NoMaps rest _ h

  add_special-NoMaps :
      (content : Bytes) (id : ℤ) (t : Tokenizer) → NoMaps t → NoMaps (add_special content id t)
  unfolding NoMaps
  add_special-NoMaps [] id t h = h
  add_special-NoMaps (c ∷ s) id t h = h

  read_added-NoMaps : (vs : Values Num) (t : Tokenizer) → NoMaps t → NoMaps (read_added to_int vs t)
  unfolding read_added
  read_added-NoMaps no_values t h = h
  read_added-NoMaps (value_then v rest) t h =
      read_added-NoMaps rest _ (add_special-NoMaps (get_string v (codes "content") []) _ t h)

  check_vocab-IsReady : (t : Tokenizer) → NoMaps t → Gives IsReady (check_vocab (fill_byte_maps t))
  unfolding check_vocab fill_byte_maps NoMaps
  check_vocab-IsReady t h =
      let maps : build_byte_maps (t.byte_encoder, t.byte_decoder) ≡ byte_maps =
        rw (h.0, h.1) refl in
      elim (Bool-cases (is_empty t.vocab)) [
        | inl e ↦ rw e (fails _)
        | inr e ↦ rw e (
            gives _ record {
              some_tokens = e;
              encoder = ap (λ m. m.0) maps;
              decoder = ap (λ m. m.1) maps;
            })
      ]

  with_merges-NoMaps :
      (t : Tokenizer) (r : List ((Bytes × Bytes) × ℕ))
      → NoMaps t
      → NoMaps (record t { merge_rank = r })
  unfolding NoMaps
  with_merges-NoMaps t r h = h

  load_vocab-IsReady :
      (root model : Value Num) (t : Tokenizer) (o : Option (Value Num))
      → NoMaps t
      → Gives IsReady (load_vocab to_int root model t o)
  unfolding load_vocab read_root
  load_vocab-IsReady root model t none h = fails _
  load_vocab-IsReady root model t (some v) h =
      check_vocab-IsReady _
        (read_added-NoMaps _ _ (with_merges-NoMaps _ _ (read_vocab-NoMaps (obj v) t h)))

  load_bpe-IsReady :
      (stod : Bytes → Option Num) (text : Bytes) (t : Tokenizer)
      → NoMaps t
      → Gives IsReady (load_bpe to_int stod text t)
  unfolding load_bpe load_parsed load_model
  load_bpe-IsReady stod text t h = parsed (parse stod text)
    where
      model :
          (root : Value Num) (o : Option (Value Num)) → Gives IsReady (load_model to_int root t o)
      model root none = fails _
      model root (some m) = load_vocab-IsReady root m t _ h

      parsed : (r : Result Json.Error (Value Num)) → Gives IsReady (load_parsed to_int t r)
      parsed (err e) = fails _
      parsed (ok root) = model root _

  -- Whatever tokenizer.json is, a new tokenizer ends its `load` in byte mode, or in BPE mode with
  -- tokens and with the byte maps.
  pub load-IsReady :
      (stod : Bytes → Option Num) (file : Option Bytes) (size : ℤ)
      → let t = load to_int stod file size new_tokenizer in
        (t.mode ≡ byte) ⊎ ((t.mode ≡ bpe) × IsReady t)
  unfolding load mode_of NoMaps
  load-IsReady stod none size = inl refl
  load-IsReady stod (some text) size = ended (load_bpe-IsReady stod text _ (refl, refl))
    where
      ended :
          {r : Loaded}
          → Gives IsReady r
          → ((mode_of r).mode ≡ byte) ⊎ (((mode_of r).mode ≡ bpe) × IsReady (mode_of r))
      ended (gives t h) =
          inr
            (refl, record { some_tokens = h.some_tokens; encoder = h.encoder; decoder = h.decoder })
      ended (fails (e, t)) = inl refl
