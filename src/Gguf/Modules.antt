-- ===== src/Gguf/Modules.antt =====
-- The modules of the layout that `build_glm52_layout` of src/gguf.cpp returns.
use glmserve.Prelude.{
  ℕ, zero, suc, ◌+◌, ◌-◌, ◌*◌, ◌≤◌, ◌≡◌, refl, sym, ap, ◌∙◌, true, false, Option, none, some, List,
  [], ◌∷◌, ◌++◌, map, All, length, length-append, length-map, append_assoc, append-nil, ltb, leb,
  leb→le, ◌==◌, if◌then◌else◌, arith, Bool-cases, inl, inr,
}
use glmserve.Prelude.Bytes.{Bytes, codes}
use glmserve.Prelude.Result.{
  Result, ok, err, ◌>>◌, check, Gives, gives, fails, known, >>=-Gives, >>-Gives, check-Gives,
  Gives-weaken, Gives-ok,
}
use glmserve.Gguf.Shard.{TensorInfo}
use glmserve.Gguf.Model.{Model, tensor_info, metadata_u64}
use glmserve.Gguf.Layout.{
  LayoutError, Statement, add, dense_layer, moe_layer, mtp, global_statements, attention_statements,
  dense_statements, moe_statements, mtp_statements, layer_statements, loop_statements,
  layout_statements, ModuleView, Layout, empty_layout, require_tensor_shape, add_module,
  run_statement, run_statements, same_shape,
}
use glmserve.Gguf.Validate.{
  validate_glm52, build_glm52_layout, block_count, is_architecture, is_empty, require_names,
  global_names, quant_count, require_layers,
}

-- What a list of statements asks for, and what a layout has.
abbrev pub Wanted : Type 0
Wanted = Bytes × Bytes × List ℕ

unfoldable pub wanted : List Statement → List Wanted
wanted [] = []
wanted (add role name shape ∷ ss) = (role, name, shape) ∷ wanted ss
wanted (dense_layer ∷ ss) = wanted ss
wanted (moe_layer ∷ ss) = wanted ss
wanted (mtp ∷ ss) = wanted ss

abbrev pub view : ModuleView → Wanted
view v = (v.role, v.name, v.tensor.shape)

map-append {ℓ κ} :
    {A : Type ℓ} {B : Type κ} (f : A → B) (xs ys : List A) → map f (xs ++ ys) ≡ map f xs ++ map f ys
map-append f [] ys = refl
map-append f (x ∷ xs) ys = ap (◌∷◌ (f x)) (map-append f xs ys)

wanted-append : (ss ts : List Statement) → wanted (ss ++ ts) ≡ wanted ss ++ wanted ts
unfolding wanted
wanted-append [] ts = refl
wanted-append (add role name shape ∷ ss) ts = ap (◌∷◌ (role, name, shape)) (wanted-append ss ts)
wanted-append (dense_layer ∷ ss) ts = wanted-append ss ts
wanted-append (moe_layer ∷ ss) ts = wanted-append ss ts
wanted-append (mtp ∷ ss) ts = wanted-append ss ts

same_shape-eq : (xs ys : List ℕ) → same_shape xs ys ≡ true → xs ≡ ys
same_shape-eq [] [] h = refl
same_shape-eq [] (y ∷ ys) h = cc
same_shape-eq (x ∷ xs) [] h = cc
same_shape-eq (x ∷ xs) (y ∷ ys) h = ground (arith, same_shape-eq xs ys)

-- The tensor of a module is the one that the model has under the module's name.
abbrev pub IsFound : Model → ModuleView → Type 0
IsFound m v = tensor_info m v.name ≡ some v.tensor

require_tensor_shape-found :
    (m : Model) (name : Bytes) (shape : List ℕ)
    → Gives
        (λ t. (tensor_info m name ≡ some t) × (t.shape ≡ shape))
        (require_tensor_shape m name shape)
unfolding require_tensor_shape
require_tensor_shape-found m name shape = go (tensor_info m name) refl
  where
    go :
        (o : Option TensorInfo)
        → tensor_info m name ≡ o
        → Gives
            (λ t. (tensor_info m name ≡ some t) × (t.shape ≡ shape))
            (elim o [
              | none ↦ err (LayoutError.missing_tensor name)
              | some t ↦
                  check (same_shape t.shape shape) (LayoutError.bad_shape name t.shape) >> ok t
            ])
    go none e = fails _
    go (some t) e =
        check-Gives (same_shape t.shape shape) _
          λ same. gives t (e, same_shape-eq t.shape shape same)

record Ran (m : Model) (l : Layout) (ss : List Statement) (l' : Layout) : Type 0 where
  views : map view l'.modules ≡ map view l.modules ++ wanted ss
  found : All (IsFound m) l.modules → All (IsFound m) l'.modules

All-snoc {ℓ κ} :
    {A : Type ℓ} (P : A → Type κ) (xs : List A) (x : A) → All P xs → P x → All P (xs ++ x ∷ [])
All-snoc P [] x h p = (p, tt)
All-snoc P (y ∷ xs) x h p = (h.0, All-snoc P xs x h.1 p)

run_statement-Ran :
    (m : Model) (l : Layout) (s : Statement) → Gives (Ran m l (s ∷ [])) (run_statement m l s)
unfolding run_statement wanted add_module
run_statement-Ran m l (add role name shape) =
    >>=-Gives (require_tensor_shape-found m name shape) λ t there.
      gives (add_module l role name t) record {
        views =
            map-append view l.modules (record { role = role; name = name; tensor = t } ∷ [])
            ∙ ap (λ sh. map view l.modules ++ (role, name, sh) ∷ []) there.1;
        found = λ h. All-snoc (IsFound m) l.modules _ h there.0;
      }
run_statement-Ran m l dense_layer =
    gives _ record { views = sym (append-nil (map view l.modules)); found = λ h. h }
run_statement-Ran m l moe_layer =
    gives _ record { views = sym (append-nil (map view l.modules)); found = λ h. h }
run_statement-Ran m l mtp =
    gives _ record { views = sym (append-nil (map view l.modules)); found = λ h. h }

run_statements-Ran :
    (m : Model) (ss : List Statement) (l : Layout) → Gives (Ran m l ss) (run_statements m l ss)
unfolding run_statements wanted
run_statements-Ran m [] l =
    gives l record { views = sym (append-nil (map view l.modules)); found = λ h. h }
run_statements-Ran m (s ∷ ss) l = >>=-Gives (run_statement-Ran m l s) λ l' first.
    Gives-weaken (run_statements-Ran m ss l') λ l'' rest. record {
      views =
          rest.views
          ∙ ap (λ vs. vs ++ wanted ss) first.views
          ∙ append_assoc (map view l.modules) (wanted (s ∷ [])) (wanted ss)
          ∙ ap (λ ws. map view l.modules ++ ws) (sym (wanted-append (s ∷ []) ss));
      found = λ h. rest.found (first.found h);
    }

wanted-layer : (i : ℕ) → length (wanted (layer_statements i)) ≡ (if ltb i 3 then 18 else 23)
unfolding wanted layer_statements attention_statements dense_statements moe_statements
wanted-layer i = elim (Bool-cases (ltb i 3)) [ inl e ↦ rw e | inr e ↦ rw e ]

-- From the fourth layer on each layer has 23 tensors.
wanted-loop : (n i : ℕ) → 3 ≤ i → length (wanted (loop_statements n i)) ≡ 23 * n
unfolding loop_statements wanted
wanted-loop zero i h = refl
wanted-loop (suc n) i h =
    let high : ltb i 3 ≡ false = ground arith in
    let one : length (wanted (layer_statements i)) ≡ 23 = wanted-layer i ∙ rw high in
    rw (wanted-append (layer_statements i) (loop_statements n (i + 1))) (
      omega (
        arith,
        wanted-loop n (i + 1) (omega arith),
        one,
        length-append (wanted (layer_statements i)) (wanted (loop_statements n (i + 1))),
      ))

abbrev pub module_count : ℕ → ℕ
module_count blocks = 57 + 23 * (blocks - 3) + (if ltb 78 blocks then 4 else 0)

wanted_add :
    (ss ts : List Statement) (j k : ℕ)
    → length (wanted ss) ≡ j
    → length (wanted ts) ≡ k
    → length (wanted (ss ++ ts)) ≡ j + k
wanted_add ss ts j k e f =
    rw (wanted-append ss ts) (omega (arith, length-append (wanted ss) (wanted ts), e, f))

wanted-layout :
    (n : ℕ)
    → length (wanted (layout_statements (suc (suc (suc n))))) ≡ module_count (suc (suc (suc n)))
unfolding layout_statements global_statements mtp_statements wanted loop_statements
wanted-layout n =
    let b = suc (suc (suc n)) in
    let end = if ltb 78 b then mtp_statements else [] in
    let low : length (wanted (loop_statements (suc (suc (suc n))) 0)) ≡ 18 + (18 + (18 + 23 * n)) =
      wanted_add (layer_statements 0) _ 18 (18 + (18 + 23 * n)) (wanted-layer 0) (
        wanted_add (layer_statements 1) _ 18 (18 + 23 * n) (wanted-layer 1) (
          wanted_add (layer_statements 2) _ 18 (23 * n) (wanted-layer 2)
            (wanted-loop n 3 (omega arith)))) in
    wanted_add global_statements (loop_statements b 0 ++ end) 3 _ refl
      (wanted_add (loop_statements b 0) end _ _ low (last b))
    ∙ omega arith
  where
    last :
        (b : ℕ)
        → length (wanted (if ltb 78 b then mtp_statements else [])) ≡ (if ltb 78 b then 4 else 0)
    last b = elim (Bool-cases (ltb 78 b)) [ inl e ↦ rw e | inr e ↦ rw e ]

-- What a layout is, for a file of `b` blocks.
pub record IsLayout (m : Model) (b : ℕ) (l : Layout) : Type 0 where
  pub found : All (IsFound m) l.modules
  pub views : map view l.modules ≡ wanted (layout_statements b)
  pub counted : length l.modules ≡ module_count b

-- The statements of `build_glm52_layout`, where they succeed for a file of at least three blocks,
-- give exactly the modules that the source lists, in that order: three for the model, 18 for each of
-- the first three layers, 23 for each later one and four for a layer behind the 78th. Each stands
-- for the tensor that the file has under the module's name, and that tensor has the shape listed.
pub run_statements-IsLayout :
    (m : Model) (b : ℕ) (l : Layout)
    → 3 ≤ b
    → run_statements m empty_layout (layout_statements b) ≡ ok l
    → IsLayout m b l
run_statements-IsLayout m b l many h =
    let ran = Gives-ok (run_statements-Ran m (layout_statements b) empty_layout) h in
    record {
      found = ran.found tt;
      views = ran.views;
      counted = sym (length-map l.modules view) ∙ ap length ran.views ∙ count b many;
    }
  where
    count : (b : ℕ) → 3 ≤ b → length (wanted (layout_statements b)) ≡ module_count b
    count zero k = absurd (omega arith)
    count (suc zero) k = absurd (omega arith)
    count (suc (suc zero)) k = absurd (omega arith)
    count (suc (suc (suc n))) k = wanted-layout n

validate_glm52-many : (m : Model) → Gives (λ _. 78 ≤ block_count m) (validate_glm52 m)
unfolding validate_glm52
validate_glm52-many m = check-Gives (is_architecture m (codes "glm-dsa")) _ λ _.
    check-Gives (leb 78 (block_count m)) _
      λ many. Gives-weaken (known (later m)) λ u _. leb→le 78 (block_count m) many
  where
    later : Model → Result LayoutError (Unit {0})
    later m = do
      check (metadata_u64 m (codes "glm-dsa.expert_count") 0 == 256) LayoutError.bad_experts
      check (if is_empty m.tensors then false else true) LayoutError.no_tensors
      require_names m global_names
      check (ltb 0 (quant_count (codes "IQ3_XXS") m.tensors)) LayoutError.no_iq3
      require_layers m (block_count m) 0

-- So a layout that the whole function returns is one for at least 78 blocks.
build_glm52_layout-IsLayout :
    (m : Model) → Gives (IsLayout m (block_count m)) (build_glm52_layout m)
unfolding build_glm52_layout
build_glm52_layout-IsLayout m = >>-Gives (validate_glm52-many m) λ u many.
    Gives-weaken (known (run_statements m empty_layout (layout_statements (block_count m))))
      λ l h. run_statements-IsLayout m (block_count m) l (omega arith) h
