-- ===== src/Chain/Walked.antt =====
-- What the walk to the parents finds.
use mathlib.Core.Option
use mathlib.Core.Path.{subst}
use starweld.Prelude.{ℕ, zero, suc, ◌≡◌, ◌≢◌, ◌⊎◌, refl, sym, ap, ◌∙◌, true, false}
use starweld.Prelude.{
  Option, none, some, List, [], ◌∷◌, ◌==◌, ==→≡, arith, Bool-cases, inl, inr, All,
}
use starweld.Prelude.Bytes.{bytes_eq, bytes_eq_refl}
use starweld.Externals.{Externals, Uuid, Text, nil}
use starweld.Error.{Result, ok, err, panic, ◌>>◌, >>=-eq-ok, guard-eq-ok}
use starweld.Chain.{Volume, ChainNode, Chain, contains, visit, canonical, go_on, prepend}
use starweld.Chain.{walk, checked, discover, check_guids, check_expected, expected_of}
use starweld.Chain.Linked.{if_both, IsNode, Linked, Distinct, Matched, IsChain, visit-IsNode}

-- A walk that returns nodes returns such nodes.
abbrev Finds : (List ChainNode → Type 0) → Option (Result (List ChainNode)) → Type 0
Finds P none = Unit {0}
Finds P (some panic) = Unit {0}
Finds P (some (err e)) = Unit {0}
Finds P (some (ok ns)) = P ns

prepend-Finds :
    (P Q : List ChainNode → Type 0) (n : ChainNode) (o : Option (Result (List ChainNode)))
    → ((ms : List ChainNode) → Q ms → P (n ∷ ms))
    → Finds Q o
    → Finds P (Option.map (prepend n) o)
prepend-Finds P Q n none h hs = tt
prepend-Finds P Q n (some panic) h hs = tt
prepend-Finds P Q n (some (err e)) h hs = tt
prepend-Finds P Q n (some (ok ms)) h hs = h ms hs

go_on-Finds :
    (P : List ChainNode → Type 0) (rest : Text → Option (Result (List ChainNode)))
    (v : Result (ChainNode × Option Text))
    → ((n : ChainNode) → v ≡ ok (n, none) → P (n ∷ []))
    → ((n : ChainNode) (next : Text)
        → v ≡ ok (n, some next)
        → Finds P (Option.map (prepend n) (rest next)))
    → Finds P (go_on rest v)
go_on-Finds P rest panic last more = tt
go_on-Finds P rest (err e) last more = tt
go_on-Finds P rest (ok (n, none)) last more = last n refl
go_on-Finds P rest (ok (n, some next)) last more = more n next refl

module _ (vol : Volume) ⦃ext : Externals⦄ where
  abbrev Unvisited : List Text → List ChainNode → Type 0
  Unvisited visited ns = All (λ n. contains visited (canonical vol n.path) ≡ false) ns

  -- The nodes that a walk finds from a path on.
  record Walked (visited : List Text) (current : Text) (ns : List ChainNode) : Type 0 where
    linked : Linked vol current ns
    unvisited : Unvisited visited ns
    distinct : Distinct vol ns

  cons-Linked :
      (current next : Text) (n : ChainNode) (ms : List ChainNode)
      → IsNode vol current n (some next)
      → Linked vol next ms
      → Linked vol current (n ∷ ms)
  cons-Linked current next n [] h hs = absurd hs
  cons-Linked current next n (m ∷ []) h hs =
      let same : next ≡ m.path = sym hs.at in
      (subst (λ p. IsNode vol current n (some p)) same h, subst (λ p. IsNode vol p m none) same hs)
  cons-Linked current next n (m ∷ k ∷ ms) h hs =
      let same : next ≡ m.path = sym hs.0.at in
      (
        subst (λ p. IsNode vol current n (some p)) same h,
        (subst (λ p. IsNode vol p m (some k.path)) same hs.0, hs.1),
      )

  cons-Unvisited :
      (c : Text) (visited : List Text) (ns : List ChainNode)
      → Unvisited (c ∷ visited) ns
      → Unvisited visited ns × All (λ m. canonical vol m.path ≢ c) ns
  unfolding contains
  cons-Unvisited c visited [] h = (tt, tt)
  cons-Unvisited c visited (n ∷ ns) h =
      let rest = cons-Unvisited c visited ns h.1 in
      (
        (ground (arith, h.0), rest.0),
        (
          λ same.
              let seen : bytes_eq c (canonical vol n.path) ≡ true = rw same (bytes_eq_refl c) in
              ground (arith, h.0),
          rest.1,
        ),
      )

  cons-Walked :
      (visited : List Text) (current next : Text) (n : ChainNode) (ms : List ChainNode)
      → contains visited (canonical vol current) ≡ false
      → IsNode vol current n (some next)
      → Walked (canonical vol current ∷ visited) next ms
      → Walked visited current (n ∷ ms)
  cons-Walked visited current next n ms unseen h w =
      let apart = cons-Unvisited (canonical vol current) visited ms w.unvisited in
      let here = ap (canonical vol) h.at in
      record {
        linked = cons-Linked current next n ms h w.linked;
        unvisited = (rw here unseen, apart.0);
        distinct = (rw here apart.1, w.distinct);
      }

  walk-Walked :
      (fuel : ℕ) (visited : List Text) (current : Text)
      → Finds (Walked visited current) (walk vol fuel visited current)
  unfolding walk
  walk-Walked zero visited current = tt
  walk-Walked (suc fuel) visited current =
      if_both (Finds (Walked visited current)) (contains visited (canonical vol current)) _ _
        (λ seen. tt)
        λ unseen.
          go_on-Finds (Walked visited current) _ (visit vol current)
            (λ n e.
              let h = visit-IsNode vol current n none e in
              record {
                linked = h;
                unvisited = (rw (ap (canonical vol) h.at) unseen, tt);
                distinct = (tt, tt);
              })
            λ n next e.
              prepend-Finds (Walked visited current) (Walked (canonical vol current ∷ visited) next)
                n _
                (λ ms.
                  cons-Walked visited current next n ms unseen
                    (visit-IsNode vol current n (some next) e))
                (walk-Walked fuel (canonical vol current ∷ visited) next)

check_expected-ok :
    (o : Option Uuid) (actual : Uuid)
    → check_expected o actual ≡ ok tt
    → (expected : Uuid) → o ≡ some expected
    → (actual ≡ expected) ⊎ (actual ≡ nil)
check_expected-ok none actual e expected same = cc
check_expected-ok (some x) actual e expected same =
    let tested = guard-eq-ok _ _ e in
    let is : x ≡ expected = cc in
    elim (Bool-cases (actual == x)) [
      | inl eq ↦ inl (==→≡ actual x eq ∙ is)
      | inr ne ↦ inr (==→≡ actual nil (ground arith))
    ]

check_guids-Matched : (ns : List ChainNode) → check_guids ns ≡ ok tt → Matched ns
unfolding check_guids
check_guids-Matched [] e = tt
check_guids-Matched (n ∷ []) e = tt
check_guids-Matched (n ∷ m ∷ ns) e =
    let (u, e1, e2) =
      >>=-eq-ok (check_expected (expected_of n.parent_link) m.data_write_guid) _ e in
    (
      check_expected-ok (expected_of n.parent_link) m.data_write_guid e1,
      check_guids-Matched (m ∷ ns) e2,
    )

module _ (vol : Volume) ⦃ext : Externals⦄ where
  abbrev Discovers : Text → Option (Result Chain) → Type 0
  Discovers leaf_path none = Unit {0}
  Discovers leaf_path (some panic) = Unit {0}
  Discovers leaf_path (some (err e)) = Unit {0}
  Discovers leaf_path (some (ok c)) = IsChain vol leaf_path c

  checked-Discovers :
      (leaf_path : Text) (o : Option (Result (List ChainNode)))
      → Finds (Walked vol [] leaf_path) o
      → Discovers leaf_path (Option.map (checked leaf_path) o)
  unfolding checked
  checked-Discovers leaf_path none w = tt
  checked-Discovers leaf_path (some panic) w = tt
  checked-Discovers leaf_path (some (err e)) w = tt
  checked-Discovers leaf_path (some (ok ns)) w = go (check_guids ns) refl
    where
      go :
          (r : Result (Unit {0}))
          → check_guids ns ≡ r
          → Discovers leaf_path (some (r >> ok (record { leaf_path = leaf_path; nodes = ns })))
      go panic e = tt
      go (err x) e = tt
      go (ok tt) e = record {
        starts = refl;
        linked = w.linked;
        distinct = w.distinct;
        matched = check_guids-Matched ns e;
      }

  -- A chain that discover returns starts at the leaf and is linked: each node has the
  -- identifiers, sizes and parent flag of the disk that opens at its path, each but the last
  -- names in its locator a path that resolves to the next node's, the last has no parent, no two
  -- nodes have the same canonical path, and the data-write GUID that a child expects is its
  -- parent's or the parent's is nil.
  pub discover-IsChain :
      (fuel : ℕ) (leaf_path : Text) (c : Chain)
      → discover vol fuel leaf_path ≡ some (ok c)
      → IsChain vol leaf_path c
  unfolding discover
  discover-IsChain fuel leaf_path c e =
      subst (Discovers leaf_path) e (
        checked-Discovers leaf_path (walk vol fuel [] leaf_path)
          (walk-Walked vol fuel [] leaf_path))
