-- ===== src/Gguf/Model/Loaded.antt =====
-- The tensors of a model that `GGUFModel::load` of src/gguf.cpp has read: each points into its shard.
use glmserve.Prelude.{
  ℕ, zero, suc, ◌+◌, ◌≤◌, ◌≡◌, refl, true, Option, none, some, List, [], ◌∷◌, ◌++◌, All, length,
  length-append, get_elem?, get_elem?-append_left, get_elem?-lt, arith, ap, ◌∙◌, subst,
}
use glmserve.Prelude.Bytes.{Bytes}
use glmserve.Prelude.Result.{Result, ok, ◌>>=◌, Gives, gives, known, >>=-Gives, Gives-ok}
use glmserve.Gguf.{Error}
use glmserve.Gguf.Shard.{TensorInfo, ShardInfo, load_one_shard, payload_begin}
use glmserve.Gguf.Shard.Bounds.{IsRow, IsLoaded, Inside, load_one_shard-IsLoaded}
use glmserve.Gguf.Model.{
  Model, PathKind, add_shard, load, load_shards, empty_model, discover_shards, map_shard,
  map_shards, map_payloads, tensor_data,
}

-- The tensor's shard is there, and its payload in it.
record IsPlaced (shards : List ShardInfo) (t : TensorInfo) : Type 0 where
  shard : ShardInfo
  found : get_elem? shards t.shard_index ≡ some shard
  inside : Inside shard.data_offset shard.file_size t

All-append {ℓ κ} :
    {A : Type ℓ} (P : A → Type κ) (xs ys : List A) → All P xs → All P ys → All P (xs ++ ys)
All-append P [] ys h k = k
All-append P (x ∷ xs) ys h k = (h.0, All-append P xs ys h.1 k)

All-imp {ℓ κ μ} :
    {A : Type ℓ} (P : A → Type κ) (Q : A → Type μ) (xs : List A)
    → ((a : A) → P a → Q a)
    → All P xs
    → All Q xs
All-imp P Q [] f h = tt
All-imp P Q (x ∷ xs) f h = (f x h.0, All-imp P Q xs f h.1)

All-both {ℓ κ μ} :
    {A : Type ℓ} (P : A → Type κ) (Q : A → Type μ) (xs : List A)
    → All P xs
    → All Q xs
    → All (λ a. P a × Q a) xs
All-both P Q [] h k = tt
All-both P Q (x ∷ xs) h k = ((h.0, k.0), All-both P Q xs h.1 k.1)

get_elem?-append_length {ℓ} :
    {A : Type ℓ} (xs : List A) (x : A) → get_elem? (xs ++ x ∷ []) (length xs) ≡ some x
get_elem?-append_length [] x = refl
get_elem?-append_length (y ∷ xs) x = get_elem?-append_length xs x

IsPlaced-add :
    (shards : List ShardInfo) (sh : ShardInfo) (t : TensorInfo)
    → IsPlaced shards t
    → IsPlaced (shards ++ sh ∷ []) t
IsPlaced-add shards sh t p = record {
  shard = p.shard;
  found =
      get_elem?-append_left shards (sh ∷ []) t.shard_index
        (get_elem?-lt shards t.shard_index p.found)
      ∙ p.found;
  inside = p.inside;
}

IsPlaced-new :
    (shards : List ShardInfo) (sh : ShardInfo) (t : TensorInfo)
    → IsRow (length shards) t × Inside sh.data_offset sh.file_size t
    → IsPlaced (shards ++ sh ∷ []) t
IsPlaced-new shards sh t (row, inside) = record {
  shard = sh;
  found = ap (get_elem? (shards ++ sh ∷ [])) row.owned ∙ get_elem?-append_length shards sh;
  inside = inside;
}

add_shard-IsPlaced :
    (file : Bytes) (m : Model) (sh : ShardInfo)
    → IsLoaded file (length m.shards) sh
    → All (IsPlaced m.shards) m.tensors
    → All (IsPlaced (add_shard m sh).shards) (add_shard m sh).tensors
unfolding add_shard
add_shard-IsPlaced file m sh l p =
    All-append (IsPlaced (m.shards ++ sh ∷ [])) m.tensors sh.tensors
      (All-imp (IsPlaced m.shards) _ m.tensors (IsPlaced-add m.shards sh) p)
      (All-imp _ _ sh.tensors (IsPlaced-new m.shards sh) (
        All-both (IsRow (length m.shards)) (Inside sh.data_offset sh.file_size) sh.tensors l.rows
          l.in_file))

load_shards-IsPlaced :
    (file_of : Bytes → Bytes) (paths : List Bytes) (i : ℕ) (m : Model)
    → length m.shards ≡ i
    → All (IsPlaced m.shards) m.tensors
    → Gives (λ m'. All (IsPlaced m'.shards) m'.tensors) (load_shards file_of paths i m)
unfolding load_shards add_shard
load_shards-IsPlaced file_of [] i m e p = gives m p
load_shards-IsPlaced file_of (path ∷ paths) i m e p =
    >>=-Gives (known (load_one_shard path (file_of path) i)) λ sh h.
      load_shards-IsPlaced file_of paths (i + 1) (add_shard m sh) (longer sh) (
        add_shard-IsPlaced (file_of path) m sh
          (rw e (load_one_shard-IsLoaded path (file_of path) i sh h)) p)
  where
    longer : (sh : ShardInfo) → length (add_shard m sh).shards ≡ i + 1
    longer sh = omega (arith, length-append m.shards (sh ∷ []))

load-IsPlaced :
    (file_of : Bytes → Bytes) (path : Bytes) (kind : PathKind)
    → Gives (λ m. All (IsPlaced m.shards) m.tensors) (load file_of path kind)
unfolding load
load-IsPlaced file_of path kind =
    >>=-Gives (known (discover_shards path kind))
      λ paths _. load_shards-IsPlaced file_of paths 0 empty_model refl tt

-- A shard after `map_payloads`: as it was, with an address.
record Mapped (sh : ShardInfo) (after : Option ShardInfo) : Type 0 where
  now : ShardInfo
  address : ℕ
  here : after ≡ some now
  based : now.base ≡ some address
  same_data : now.data_offset ≡ sh.data_offset
  same_size : now.file_size ≡ sh.file_size

map_shard-Mapped :
    (mmap : ShardInfo → Result Error ℕ) (sh : ShardInfo)
    → Gives (λ sh'. Mapped sh (some sh')) (map_shard mmap sh)
unfolding map_shard
map_shard-Mapped mmap sh = go sh.base refl
  where
    go :
        (b : Option ℕ)
        → sh.base ≡ b
        → Gives
            (λ sh'. Mapped sh (some sh'))
            (elim b [
              | some b ↦ ok sh
              | none ↦ mmap sh >>= λ base. ok (record sh { base = some base; fd = true })
            ])
    go none e =
        (>>=-Gives (known (mmap sh)) λ base _. gives _ record {
          now = record sh { base = some base; fd = true };
          address = base;
          here = refl;
          based = refl;
          same_data = refl;
          same_size = refl;
        })
    go (some b) e =
        (gives sh record {
          now = sh;
          address = b;
          here = refl;
          based = e;
          same_data = refl;
          same_size = refl;
        })

map_shards-Mapped :
    (mmap : ShardInfo → Result Error ℕ) (shs : List ShardInfo)
    → Gives
        (λ shs'.
          (k : ℕ) (sh : ShardInfo) → get_elem? shs k ≡ some sh → Mapped sh (get_elem? shs' k))
        (map_shards mmap shs)
unfolding map_shards
map_shards-Mapped mmap [] = gives [] λ k sh h. cc
map_shards-Mapped mmap (sh ∷ shs) = >>=-Gives (map_shard-Mapped mmap sh) λ sh' first.
    >>=-Gives (map_shards-Mapped mmap shs) λ shs' rest. gives _ (at sh' first shs' rest)
  where
    at :
        (sh' : ShardInfo)
        → Mapped sh (some sh')
        → (shs' : List ShardInfo)
        → ((k : ℕ) (s : ShardInfo) → get_elem? shs k ≡ some s → Mapped s (get_elem? shs' k))
        → (k : ℕ) (s : ShardInfo) → get_elem? (sh ∷ shs) k ≡ some s
        → Mapped s (get_elem? (sh' ∷ shs') k)
    at sh' first shs' rest zero s h =
        let e : sh ≡ s = cc in subst (λ x. Mapped x (some sh')) e first
    at sh' first shs' rest (suc k) s h = rest k s h

-- What `tensor_data` answers for a tensor whose payload lies in its mapped shard.
pub record Located (m : Model) (t : TensorInfo) : Type 0 where
  pub shard : ShardInfo
  pub base : ℕ
  pub found : get_elem? m.shards t.shard_index ≡ some shard
  pub mapped : shard.base ≡ some base
  pub answer : tensor_data m t ≡ ok (base + payload_begin shard.data_offset t)
  pub in_shard : payload_begin shard.data_offset t + t.n_bytes ≤ shard.file_size

tensor_data-Located :
    (m : Model) (t : TensorInfo) (sh : ShardInfo)
    → Inside sh.data_offset sh.file_size t
    → Mapped sh (get_elem? m.shards t.shard_index)
    → Located m t
unfolding tensor_data
tensor_data-Located m t sh (fits, low) p = record {
  shard = p.now;
  base = p.address;
  found = p.here;
  mapped = p.based;
  answer = rw (tensor_data, p.here) (rw (p.based, p.same_data, p.same_size, fits));
  in_shard = rw (p.same_data, p.same_size) low;
}

-- After a path is loaded and its payloads are mapped, `tensor_data` answers for every tensor of the
-- model: with the address in the mapping of the tensor's own shard where its payload begins, and
-- the payload ends within that mapping.
pub load-Located :
    (file_of : Bytes → Bytes) (mmap : ShardInfo → Result Error ℕ) (path : Bytes) (kind : PathKind)
    (m m' : Model)
    → load file_of path kind ≡ ok m
    → map_payloads mmap m ≡ ok m'
    → All (Located m') m'.tensors
unfolding map_payloads
load-Located file_of mmap path kind m m' h k =
    let placed = Gives-ok (load-IsPlaced file_of path kind) h in
    Gives-ok {P = λ m'. All (Located m') m'.tensors}
      (>>=-Gives (map_shards-Mapped mmap m.shards) λ shards mapped.
        gives (record m { shards = shards })
          (All-imp (IsPlaced m.shards) (Located (record m { shards = shards })) m.tensors
            (λ t p.
              tensor_data-Located (record m { shards = shards }) t p.shard p.inside
                (mapped t.shard_index p.shard p.found))
            placed))
      k
