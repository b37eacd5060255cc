-- ===== src/TcpServer/Ownership/Kept.antt =====
-- Each connection in a table is kept, its socket is open, and no descriptor stands for two of them.
use net_module.Base.{
  ℕ, zero, suc, ◌≡◌, ◌≢◌, refl, sym, ap, ◌∙◌, true, false, List, [], ◌∷◌, Option, none, some, ok,
  ◌==◌, ==_iff, get_elem?, set_at, get_elem?-set_at, get_elem?-set_at_other, ℕ_discrete, ◌⊎◌,
  Bool-cases, inl, inr, arith,
}
use net_module.Base.IntMap.{lookup}
use net_module.EventLoop.{EventLoop}
use net_module.Connection.{Connection, get_cfd}
use net_module.TcpServer.{ServerHandler, Service, int_rem}
use net_module.TcpServer.Leaving.{Left}
use net_module.TcpServer.Affinity.{found_below}
use net_module.TcpServer.Ownership.{held_in, held_by_loop, is_held, drop, IsIn, Descriptors}

held_in-lookup :
    (fd address : ℕ) (table : List (ℕ × ℕ))
    → lookup fd table ≡ some address
    → held_in address table ≡ true
unfolding lookup held_in
held_in-lookup fd address [] h = absurd (cc)
held_in-lookup fd address ((k, a) ∷ table) h = ground (arith, h, held_in-lookup fd address table)

held_by_loop-entry :
    (i fd address : ℕ) (ls : List (EventLoop ServerHandler ℕ)) (l : EventLoop ServerHandler ℕ)
    → get_elem? ls i ≡ some l
    → lookup fd l.conns ≡ some address
    → held_by_loop address ls ≡ true
unfolding held_by_loop
held_by_loop-entry i fd address [] l there entry = absurd (cc)
held_by_loop-entry zero fd address (k ∷ ls) l there entry =
    let same : k ≡ l = cc in
    ground (
      arith,
      held_in-lookup fd address l.conns entry,
      ap (λ (m : EventLoop ServerHandler ℕ). held_in address m.conns) same,
    )
held_by_loop-entry (suc i) fd address (k ∷ ls) l there entry =
    ground (arith, held_by_loop-entry i fd address ls l there entry)

module _ {S U K : Type 0} where
  pub IsIn-held :
      (i fd address : ℕ) (v : Service S U K) → IsIn i fd address v → is_held address v ≡ true
  unfolding is_held
  IsIn-held i fd address v (l, there, entry) =
      ground (arith, held_by_loop-entry i fd address v.server.subloops l there entry)

  -- Each entry in a loop's table is for a connection in memory, on that descriptor, which is open and names
  -- the loop; and each entry in the server's table is in the table of its loop too.
  pub record Owned (v : Service S U K) (fds : Descriptors) : Type 0 where
    pub kept :
        (fd address : ℕ)
        → lookup fd v.server.conns ≡ some address
        → (i : ℕ) × (int_rem fd v.server.thread_num ≡ ok i) × IsIn i fd address v
    pub sound :
        (i fd address : ℕ)
        → IsIn i fd address v
        → (int_rem fd v.server.thread_num ≡ ok i)
          × (fds fd ≡ true)
          × ((c : Connection ServerHandler) × (lookup address v.memory ≡ some c) × (get_cfd c ≡ fd))

  -- A descriptor that is not open is in no table.
  pub nowhere :
      (v : Service S U K) (fds : Descriptors) (fd : ℕ)
      → Owned v fds
      → fds fd ≡ false
      → (lookup fd v.server.conns ≡ none)
        × ((i : ℕ) (l : EventLoop ServerHandler ℕ)
            → get_elem? v.server.subloops i ≡ some l
            → lookup fd l.conns ≡ none)
  nowhere v fds fd owned shut = (in_server (lookup fd v.server.conns) refl, in_loop)
    where
      not_in : (i address : ℕ) → IsIn i fd address v → ⊥
      not_in i address there =
          let (index, is_open, c) = owned.sound i fd address there in cc (is_open, shut)

      in_loop :
          (i : ℕ) (l : EventLoop ServerHandler ℕ)
          → get_elem? v.server.subloops i ≡ some l
          → lookup fd l.conns ≡ none
      in_loop i l there = missing (lookup fd l.conns) refl
        where
          missing : (o : Option ℕ) → lookup fd l.conns ≡ o → o ≡ none
          missing none e = refl
          missing (some address) e = absurd (not_in i address (l, there, e))

      in_server : (o : Option ℕ) → lookup fd v.server.conns ≡ o → o ≡ none
      in_server none e = refl
      in_server (some address) e =
          let (i, index, there) = owned.kept fd address e in absurd (not_in i address there)

  pub IsIn-same :
      (v w : Service S U K)
      → w.server.subloops ≡ v.server.subloops
      → (i fd address : ℕ) → IsIn i fd address v
      → IsIn i fd address w
  IsIn-same v w same i fd address (l, there, entry) =
      (l, ap (λ ls. get_elem? ls i) same ∙ there, entry)

  -- Leaving the server's table changes nothing for the loops, and closes nothing while one keeps it.
  pub Left-Owned :
      (i fd address : ℕ) (v w : Service S U K) (fds : Descriptors)
      → Left fd v w
      → IsIn i fd address v
      → Owned v fds
      → Owned w (drop address fd w fds)
  unfolding drop
  Left-Owned i fd address v w fds left there owned =
      rw (IsIn-held i fd address w (IsIn-same v w left.same_loops i fd address there)) (record {
        kept = λ fd' a entry. elim (Bool-cases (fd == fd')) [
          | inl same ↦
              absurd
                (cc (entry, left.gone, ap (λ k. lookup k w.server.conns) ((==_iff fd fd').0 same)))
          | inr other ↦
              let (j, index, here) = owned.kept fd' a (sym (left.others fd' other) ∙ entry) in
              (
                j,
                ap (int_rem fd') left.same_threads ∙ index,
                IsIn-same v w left.same_loops j fd' a here,
              )
        ];
        sound = λ j fd' a here.
            let (index, is_open, (c, stored, socket)) =
              owned.sound j fd' a (IsIn-same w v (sym left.same_loops) j fd' a here) in
            (
              ap (int_rem fd') left.same_threads ∙ index,
              is_open,
              (c, ap (lookup a) left.same_memory ∙ stored, socket),
            );
      })

  -- The loops when one of them has got another table.
  module _ (v w : Service S U K) (i : ℕ) (l k : EventLoop ServerHandler ℕ)
      (there : get_elem? v.server.subloops i ≡ some l)
      (changed : w.server.subloops ≡ set_at v.server.subloops i k) where
    pub loop_changed : get_elem? w.server.subloops i ≡ some k
    loop_changed =
        ap (λ ls. get_elem? ls i) changed
        ∙ get_elem?-set_at v.server.subloops i k (found_below v.server.subloops i l there)

    other_loop : (j : ℕ) → i ≢ j → get_elem? w.server.subloops j ≡ get_elem? v.server.subloops j
    other_loop j other =
        ap (λ ls. get_elem? ls j) changed ∙ get_elem?-set_at_other v.server.subloops i j k other

    pub changed-IsIn :
        (j fd address : ℕ)
        → IsIn j fd address w
        → ((i ≡ j) × (lookup fd k.conns ≡ some address)) ⊎ ((i ≢ j) × IsIn j fd address v)
    changed-IsIn j fd address (m, here, entry) = elim (ℕ_discrete i j) [
      | yes e ↦
          let same : k ≡ m = cc (loop_changed, here, ap (get_elem? w.server.subloops) e) in
          inl (e, ap (λ (n : EventLoop ServerHandler ℕ). lookup fd n.conns) same ∙ entry)
      | no e ↦ inr (e, (m, sym (other_loop j e) ∙ here, entry))
    ]

    pub IsIn-changed :
        (j fd address : ℕ)
        → IsIn j fd address v
        → lookup fd k.conns ≡ lookup fd l.conns
        → IsIn j fd address w
    IsIn-changed j fd address (m, here, entry) same_entry = elim (ℕ_discrete i j) [
      | yes e ↦
          let same : l ≡ m = cc (there, here, ap (get_elem? v.server.subloops) e) in
          (
            k,
            ap (get_elem? w.server.subloops) (sym e) ∙ loop_changed,
            same_entry ∙ ap (λ (n : EventLoop ServerHandler ℕ). lookup fd n.conns) same ∙ entry,
          )
      | no e ↦ (m, other_loop j e ∙ here, entry)
    ]
