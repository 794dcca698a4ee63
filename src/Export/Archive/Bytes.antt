-- ===== src/Export/Archive/Bytes.antt =====
-- About writes into blocks of bytes, export/archive.ts.
use teamem_server.Prelude.{
  ℕ, zero, suc, ◌+◌, ◌≤◌, ◌≡◌, refl, sym, ap, ◌∙◌, ◌⊎◌, inl, inr, List, [], ◌∷◌, ◌++◌, length, take,
  drop, All, arith,
}
use teamem_server.Export.Archive.{replicate, overlay, set_bytes}

-- The bytes from `offset` on, `width` at most.
abbrev pub slice : ℕ → ℕ → List ℕ → List ℕ
slice offset width block = take width (drop offset block)

pub length-replicate : (n b : ℕ) → length (replicate n b) ≡ n
length-replicate zero b = refl
length-replicate (suc n) b = omega (arith, length-replicate n b)

pub length-overlay : (bytes block : List ℕ) → length (overlay bytes block) ≡ length block
unfolding overlay
length-overlay [] block = refl
length-overlay (b ∷ bs) [] = refl
length-overlay (b ∷ bs) (c ∷ block) = omega (arith, length-overlay bs block)

pub length-set_bytes :
    (block : List ℕ) (offset : ℕ) (bytes : List ℕ)
    → length (set_bytes block offset bytes) ≡ length block
unfolding set_bytes
length-set_bytes block zero bytes = length-overlay bytes block
length-set_bytes [] (suc offset) bytes = refl
length-set_bytes (c ∷ block) (suc offset) bytes = omega (arith, length-set_bytes block offset bytes)

drop-overlay :
    (n : ℕ) (bytes block : List ℕ) → length bytes ≤ n → drop n (overlay bytes block) ≡ drop n block
unfolding overlay
drop-overlay n [] block h = refl
drop-overlay zero (b ∷ bs) block h = absurd (omega arith)
drop-overlay (suc n) (b ∷ bs) [] h = refl
drop-overlay (suc n) (b ∷ bs) (c ∷ block) h = drop-overlay n bs block (omega arith)

-- A write is not seen by a slice that it ends before, or that ends before it.
slice-set_bytes_before :
    (block : List ℕ) (offset : ℕ) (bytes : List ℕ) (o w : ℕ)
    → offset + length bytes ≤ o
    → slice o w (set_bytes block offset bytes) ≡ slice o w block
unfolding set_bytes
slice-set_bytes_before block zero bytes o w h =
    ap (take w) (drop-overlay o bytes block (omega arith))
slice-set_bytes_before [] (suc offset) bytes o w h = refl
slice-set_bytes_before (c ∷ block) (suc offset) bytes zero w h = absurd (omega arith)
slice-set_bytes_before (c ∷ block) (suc offset) bytes (suc o) w h =
    slice-set_bytes_before block offset bytes o w (omega arith)

take-set_bytes :
    (block : List ℕ) (offset : ℕ) (bytes : List ℕ) (w : ℕ)
    → w ≤ offset
    → take w (set_bytes block offset bytes) ≡ take w block
unfolding set_bytes
take-set_bytes block offset bytes zero h = refl
take-set_bytes block zero bytes (suc w) h = absurd (omega arith)
take-set_bytes [] (suc offset) bytes (suc w) h = refl
take-set_bytes (c ∷ block) (suc offset) bytes (suc w) h =
    ap (λ l. c ∷ l) (take-set_bytes block offset bytes w (omega arith))

slice-set_bytes_after :
    (block : List ℕ) (offset : ℕ) (bytes : List ℕ) (o w : ℕ)
    → o + w ≤ offset
    → slice o w (set_bytes block offset bytes) ≡ slice o w block
unfolding set_bytes
slice-set_bytes_after block offset bytes zero w h =
    take-set_bytes block offset bytes w (omega arith)
slice-set_bytes_after block zero bytes (suc o) w h = absurd (omega arith)
slice-set_bytes_after [] (suc offset) bytes (suc o) w h = refl
slice-set_bytes_after (c ∷ block) (suc offset) bytes (suc o) w h =
    slice-set_bytes_after block offset bytes o w (omega arith)

-- A list of writes, each an offset and its bytes, in order.
unfoldable pub writes : List (ℕ × List ℕ) → List ℕ → List ℕ
writes [] block = block
writes ((offset, bytes) ∷ ws) block = writes ws (set_bytes block offset bytes)

abbrev pub Apart : ℕ → ℕ → ℕ × List ℕ → Type 0
Apart o w (offset, bytes) = (offset + length bytes ≤ o) ⊎ (o + w ≤ offset)

pub slice-writes :
    (o w : ℕ) (ws : List (ℕ × List ℕ)) (block : List ℕ)
    → All (Apart o w) ws
    → slice o w (writes ws block) ≡ slice o w block
unfolding writes
slice-writes o w [] block h = refl
slice-writes o w ((offset, bytes) ∷ ws) block (inl before, rest) =
    slice-writes o w ws (set_bytes block offset bytes) rest
    ∙ slice-set_bytes_before block offset bytes o w before
slice-writes o w ((offset, bytes) ∷ ws) block (inr after, rest) =
    slice-writes o w ws (set_bytes block offset bytes) rest
    ∙ slice-set_bytes_after block offset bytes o w after

pub length-writes :
    (ws : List (ℕ × List ℕ)) (block : List ℕ) → length (writes ws block) ≡ length block
unfolding writes
length-writes [] block = refl
length-writes ((offset, bytes) ∷ ws) block =
    length-writes ws (set_bytes block offset bytes) ∙ length-set_bytes block offset bytes

overlay_whole :
    (bytes block : List ℕ)
    → length bytes ≤ length block
    → overlay bytes block ≡ bytes ++ drop (length bytes) block
unfolding overlay
overlay_whole [] block h = refl
overlay_whole (b ∷ bs) [] h = absurd (omega arith)
overlay_whole (b ∷ bs) (c ∷ block) h = ap (λ l. b ∷ l) (overlay_whole bs block (omega arith))

-- What is written at an offset stands there.
pub drop-set_bytes :
    (block : List ℕ) (offset : ℕ) (bytes : List ℕ)
    → offset + length bytes ≤ length block
    → drop offset (set_bytes block offset bytes) ≡ bytes ++ drop (offset + length bytes) block
unfolding set_bytes
drop-set_bytes block zero bytes h =
    let from_start : length bytes ≡ 0 + length bytes = omega arith in
    overlay_whole bytes block (omega arith) ∙ ap (λ n. bytes ++ drop n block) from_start
drop-set_bytes [] (suc offset) bytes h = absurd (omega arith)
drop-set_bytes (c ∷ block) (suc offset) bytes h =
    let next : suc offset + length bytes ≡ suc (offset + length bytes) = omega arith in
    drop-set_bytes block offset bytes (omega arith)
    ∙ sym (ap (λ n. bytes ++ drop n (c ∷ block)) next)

overlay-overlay :
    (bs cs block : List ℕ)
    → length bs ≡ length cs
    → overlay bs (overlay cs block) ≡ overlay bs block
unfolding overlay
overlay-overlay [] [] block h = refl
overlay-overlay [] (c ∷ cs) block h = absurd (omega arith)
overlay-overlay (b ∷ bs) [] block h = absurd (omega arith)
overlay-overlay (b ∷ bs) (c ∷ cs) [] h = refl
overlay-overlay (b ∷ bs) (c ∷ cs) (d ∷ block) h =
    ap (λ l. b ∷ l) (overlay-overlay bs cs block (omega arith))

-- The later of two writes at one place is the one that counts.
pub set_bytes-set_bytes :
    (block : List ℕ) (offset : ℕ) (bs cs : List ℕ)
    → length bs ≡ length cs
    → set_bytes (set_bytes block offset cs) offset bs ≡ set_bytes block offset bs
unfolding set_bytes
set_bytes-set_bytes block zero bs cs h = overlay-overlay bs cs block h
set_bytes-set_bytes [] (suc offset) bs cs h = refl
set_bytes-set_bytes (d ∷ block) (suc offset) bs cs h =
    ap (λ l. d ∷ l) (set_bytes-set_bytes block offset bs cs h)

All-overlay :
    (P : ℕ → Type 0) (bytes block : List ℕ)
    → All P bytes
    → All P block
    → All P (overlay bytes block)
unfolding overlay
All-overlay P [] block h k = k
All-overlay P (b ∷ bs) [] h k = tt
All-overlay P (b ∷ bs) (c ∷ block) h k = (h.0, All-overlay P bs block h.1 k.1)

pub All-set_bytes :
    (P : ℕ → Type 0) (block : List ℕ) (offset : ℕ) (bytes : List ℕ)
    → All P bytes
    → All P block
    → All P (set_bytes block offset bytes)
unfolding set_bytes
All-set_bytes P block zero bytes h k = All-overlay P bytes block h k
All-set_bytes P [] (suc offset) bytes h k = tt
All-set_bytes P (c ∷ block) (suc offset) bytes h k = (k.0, All-set_bytes P block offset bytes h k.1)

pub All-writes :
    (P : ℕ → Type 0) (ws : List (ℕ × List ℕ)) (block : List ℕ)
    → All (λ w. All P w.1) ws
    → All P block
    → All P (writes ws block)
unfolding writes
All-writes P [] block h k = k
All-writes P ((offset, bytes) ∷ ws) block h k =
    All-writes P ws (set_bytes block offset bytes) h.1 (All-set_bytes P block offset bytes h.0 k)

pub take-append : (xs ys : List ℕ) → take (length xs) (xs ++ ys) ≡ xs
take-append [] ys = refl
take-append (x ∷ xs) ys = ap (λ l. x ∷ l) (take-append xs ys)

pub drop-append : (xs ys : List ℕ) → drop (length xs) (xs ++ ys) ≡ ys
drop-append [] ys = refl
drop-append (x ∷ xs) ys = drop-append xs ys

pub overlay-replicate :
    (bytes : List ℕ) (n : ℕ)
    → overlay bytes (replicate (length bytes + n) 0) ≡ bytes ++ replicate n 0
unfolding overlay
overlay-replicate [] n =
    let none_more : 0 + n ≡ n = omega arith in ap (λ m. replicate m 0) none_more
overlay-replicate (b ∷ bs) n =
    let next : length (b ∷ bs) + n ≡ suc (length bs + n) = omega arith in
    ap (λ m. overlay (b ∷ bs) (replicate m 0)) next ∙ ap (λ l. b ∷ l) (overlay-replicate bs n)
