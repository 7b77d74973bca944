-- ===== src/Name/RoundTrip.antt =====
-- name_as_bytes of src/utils.rs, read back from the packet it is written into.
use mathlib.Core.Path.{subst₂}
use goatns.Prelude.{
  ℕ, ◌+◌, ◌%◌, ◌≤◌, ◌<◌, false, some, ◌≡◌, ◌≢◌, refl, sym, ap, subst, ◌∙◌, inl, inr, List, [], ◌∷◌,
  ◌++◌, append-nil, append_assoc, arith, Bool-cases, length, drop, length-append, drop-append, All,
  ok, Bytes,
}
use goatns.Name.{pointer, pieces_of, contains, name_as_bytes, header_bytes}
use goatns.Name.Wire.{
  Reads, root, jump, IsName, IsLabel, encode, encode-append, Reads-encode, pieces_of-append,
  length-encode, pointer_bytes,
}
use goatns.Name.Branches.{
  bytes_bare, bytes_same, bytes_below, bytes_beside, IsName-split, drop-drop,
}

-- The name is written whole, or shares with the question's name all of it, or its end from a dot
-- on and no byte more.
pub data Shares (name qname : Bytes) : Type 0 where
  bare : contains 46 name ≡ false → Shares name qname
  same : name ≡ qname → Shares name qname
  below : (front : Bytes) → name ≡ front ++ (46 ∷ qname) → Shares name qname
  beside :
      (front q b : Bytes) (x y : ℕ)
      → x ≢ y
      → name ≡ front ++ (x ∷ 46 ∷ b)
      → qname ≡ q ++ (y ∷ 46 ∷ b)
      → Shares name qname

-- The packet holds the question's name at the byte behind the header.
abbrev pub HasQuestion : Bytes → Bytes → Type 0
HasQuestion msg qname =
    (more : Bytes) × (drop header_bytes msg ≡ encode (pieces_of 46 qname) ++ (0 ∷ more))

pub Reads-whole :
    (msg : Bytes) (ls : List Bytes) (more : Bytes)
    → All IsLabel ls
    → Reads msg (encode ls ++ (0 ∷ more)) ls
Reads-whole msg ls more h =
    subst (Reads msg (encode ls ++ (0 ∷ more))) (append-nil ls) (Reads-encode ls h (root more refl))

pub Reads-pointer :
    (msg : Bytes) (ls ms : List Bytes) (offset : ℕ) (rest : Bytes)
    → All IsLabel ls
    → offset < 0x4000
    → Reads msg (drop offset msg) ms
    → Reads msg ((encode ls ++ pointer offset) ++ rest) (ls ++ ms)
Reads-pointer msg ls ms offset rest h fits r =
    subst (λ bs. Reads msg bs (ls ++ ms)) (sym (append_assoc (encode ls) (pointer offset) rest))
      (Reads-encode ls h
        (jump offset rest fits (ap (λ t. t ++ rest) (pointer_bytes offset fits)) r))

-- Behind a dot of the question's name the packet spells the rest of that name.
Reads-behind_dot :
    (msg q b : Bytes)
    → IsName (q ++ (46 ∷ b))
    → HasQuestion msg (q ++ (46 ∷ b))
    → Reads msg (drop (header_bytes + (length q + 1)) msg) (pieces_of 46 b)
Reads-behind_dot msg q b h (more, at) =
    subst (λ bs. Reads msg bs (pieces_of 46 b)) (sym place)
      (Reads-whole msg (pieces_of 46 b) more (IsName-split q b h).1)
  where
    behind : Bytes
    behind = encode (pieces_of 46 b) ++ (0 ∷ more)

    cut : encode (pieces_of 46 (q ++ (46 ∷ b))) ++ (0 ∷ more) ≡ encode (pieces_of 46 q) ++ behind
    cut =
        ap (λ ls. encode ls ++ (0 ∷ more)) (pieces_of-append q b)
        ∙ ap (λ t. t ++ (0 ∷ more)) (encode-append (pieces_of 46 q) (pieces_of 46 b))
        ∙ append_assoc (encode (pieces_of 46 q)) (encode (pieces_of 46 b)) (0 ∷ more)

    place : drop (header_bytes + (length q + 1)) msg ≡ encode (pieces_of 46 b) ++ (0 ∷ more)
    place =
        drop-drop (length q + 1) header_bytes msg
        ∙ ap (drop (length q + 1)) (at ∙ cut)
        ∙ ap (λ k. drop k (encode (pieces_of 46 q) ++ behind)) (sym (length-encode q))
        ∙ drop-append (encode (pieces_of 46 q)) behind

-- The code writes `name`, and the packet spells it there, whatever follows.
abbrev pub Spells : Bytes → Bytes → Bytes → Bytes → Type 0
Spells msg name qname rest =
    (out : Bytes) × (name_as_bytes name (some header_bytes) (some qname) ≡ ok out)
    × Reads msg (out ++ rest) (pieces_of 46 name)

Spells-bare :
    (msg name qname rest : Bytes)
    → IsName name
    → contains 46 name ≡ false
    → Spells msg name qname rest
Spells-bare msg name qname rest h c =
    let ls : List Bytes = pieces_of 46 name in
    (
      encode ls ++ (0 ∷ []),
      bytes_bare name header_bytes qname h c,
      subst (λ bs. Reads msg bs ls) (sym (append_assoc (encode ls) (0 ∷ []) rest))
          (Reads-whole msg ls rest h),
    )

Spells-same :
    (msg name rest : Bytes) → IsName name → HasQuestion msg name → Spells msg name name rest
Spells-same msg name rest h (more, at) = elim (Bool-cases (contains 46 name)) [
  | inl c ↦ (
    pointer header_bytes,
    bytes_same name header_bytes h c,
    Reads-pointer msg [] (pieces_of 46 name) header_bytes rest tt (omega arith) (
        subst (λ bs. Reads msg bs (pieces_of 46 name)) (sym at)
          (Reads-whole msg (pieces_of 46 name) more h)),
  )
  | inr c ↦ Spells-bare msg name name rest h c
]

Spells-below :
    (msg front qname rest : Bytes)
    → IsName (front ++ (46 ∷ qname))
    → HasQuestion msg qname
    → Spells msg (front ++ (46 ∷ qname)) qname rest
Spells-below msg front qname rest h (more, at) =
    let (front_name, name) = IsName-split front qname h in
    (
      encode (pieces_of 46 front) ++ pointer header_bytes,
      bytes_below front qname header_bytes h,
      subst (Reads msg ((encode (pieces_of 46 front) ++ pointer header_bytes) ++ rest))
          (sym (pieces_of-append front qname))
          (Reads-pointer msg (pieces_of 46 front) (pieces_of 46 qname) header_bytes rest front_name
            (omega arith)
            (subst (λ bs. Reads msg bs (pieces_of 46 qname)) (sym at)
              (Reads-whole msg (pieces_of 46 qname) more name))),
    )

Spells-beside :
    (msg front q b rest : Bytes) (x y : ℕ)
    → x ≢ y
    → IsName (front ++ (x ∷ 46 ∷ b))
    → IsName (q ++ (y ∷ 46 ∷ b))
    → length (q ++ (y ∷ 46 ∷ b)) ≤ 255
    → HasQuestion msg (q ++ (y ∷ 46 ∷ b))
    → Spells msg (front ++ (x ∷ 46 ∷ b)) (q ++ (y ∷ 46 ∷ b)) rest
Spells-beside msg front q b rest x y ne h k fits at =
    let front' : Bytes = front ++ (x ∷ []) in
    let q' : Bytes = q ++ (y ∷ []) in
    let en : front' ++ (46 ∷ b) ≡ front ++ (x ∷ 46 ∷ b) = append_assoc front (x ∷ []) (46 ∷ b) in
    let eq : q' ++ (46 ∷ b) ≡ q ++ (y ∷ 46 ∷ b) = append_assoc q (y ∷ []) (46 ∷ b) in
    let offset : ℕ = (header_bytes + (length q + 1) + 1) % 0x10000 in
    let place : header_bytes + (length q' + 1) ≡ offset =
      omega (arith, length-append q (y ∷ []), length-append q (y ∷ 46 ∷ b)) in
    let named : IsName front' = (IsName-split front' b (subst IsName (sym en) h)).0 in
    let behind : Reads msg (drop (header_bytes + (length q' + 1)) msg) (pieces_of 46 b) =
      Reads-behind_dot msg q' b (subst IsName (sym eq) k) (subst (HasQuestion msg) (sym eq) at) in
    (
      encode (pieces_of 46 front') ++ pointer offset,
      bytes_beside front q b x y header_bytes ne h,
      subst (Reads msg ((encode (pieces_of 46 front') ++ pointer offset) ++ rest))
          (sym (pieces_of-append front' b) ∙ ap (pieces_of 46) en)
          (Reads-pointer msg (pieces_of 46 front') (pieces_of 46 b) offset rest named
            (omega (arith, length-append q (y ∷ 46 ∷ b)))
            (subst (λ k. Reads msg (drop k msg) (pieces_of 46 b)) place behind)),
    )

-- A well-formed name that has no dot, is the question's name, lies below it, or has exactly an end with it in common
-- that begins at a dot, is written so that the packet spells exactly that name there, whatever follows.
pub name_as_bytes-Reads :
    (msg name qname rest : Bytes)
    → IsName name
    → IsName qname
    → length qname ≤ 255
    → HasQuestion msg qname
    → Shares name qname
    → Spells msg name qname rest
name_as_bytes-Reads msg name qname rest h k fits at (bare c) = Spells-bare msg name qname rest h c
name_as_bytes-Reads msg name qname rest h k fits at (same e) =
    subst (λ n. Spells msg name n rest) e
      (Spells-same msg name rest h (subst (HasQuestion msg) (sym e) at))
name_as_bytes-Reads msg name qname rest h k fits at (below front e) =
    subst (λ n. Spells msg n qname rest) (sym e)
      (Spells-below msg front qname rest (subst IsName e h) at)
name_as_bytes-Reads msg name qname rest h k fits at (beside front q b x y ne e e') =
    subst₂ (λ n m. Spells msg n m rest) (sym e) (sym e')
      (Spells-beside msg front q b rest x y ne (subst IsName e h) (subst IsName e' k)
        (subst (λ n. length n ≤ 255) e' fits) (subst (HasQuestion msg) e' at))
