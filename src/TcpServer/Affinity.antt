-- ===== src/TcpServer/Affinity.antt =====
-- A connection stays with the loop that its descriptor names.
pub mod Tests
use net_module.Base.{
  ℕ, zero, suc, ◌<◌, ◌≡◌, ◌≢◌, sym, ap, ◌∙◌, List, [], ◌∷◌, Option, none, some, Result, ok, length,
  get_elem?, get_elem?-set_at, get_elem?-set_at_other, ℕ_discrete, arith, ◌==◌, Bool-cases, ==_iff,
  inl, inr, if◌then◌else◌,
}
use net_module.Base.IntMap.{lookup, insert, lookup-insert}
use net_module.System.{EpollApi, ClockApi}
use net_module.Socket.{Socket, getfd}
use net_module.EventLoop
use net_module.EventLoop.{EventLoop}
use net_module.Connection.{get_cfd}
use net_module.TcpServer.{ServerHandler, UserCall, Service, int_rem, at_index}
use net_module.TcpServer.Leaving.{IsAloof, Left, removeconn-Left, leaving_cases}
use net_module.TcpServer.Table.{
  Change, Serves, at_start, accepts, closes, fails, times_out, Stored, newconnection-Stored,
  same_end,
}

-- Each entry in the table of a loop is for a descriptor that belongs to the loop.
abbrev pub IsAffine : {S U K : Type 0} → Service S U K → Type 0
IsAffine v =
    (i fd address : ℕ) (l : EventLoop ServerHandler ℕ)
    → get_elem? v.server.subloops i ≡ some l
    → lookup fd l.conns ≡ some address
    → int_rem fd v.server.thread_num ≡ ok i

pub found_below : {A : Type 0} (l : List A) (i : ℕ) (a : A) → get_elem? l i ≡ some a → i < length l
found_below [] i a h = absurd (cc)
found_below (b ∷ l) zero a h = omega arith
found_below (b ∷ l) (suc i) a h = omega (arith, found_below l i a h)

pub there_is : {A : Type 0} (o : Option A) (a : A) → at_index o ≡ ok a → o ≡ some a
there_is none a h = absurd (cc)
there_is (some b) a h = cc

module _ {S U K : Type 0} (act : K → UserCall → Service S U K → Result (Service S U K))
    (epoll : EpollApi S) (clock : ClockApi S) (aloof : IsAloof act) where
  -- In the loop that has got the connection.
  same_loop :
      (address : ℕ) (sock : Socket) (v w : Service S U K)
      → (st : Stored act epoll clock aloof address sock v w) → IsAffine v
      → (fd a : ℕ) (l : EventLoop ServerHandler ℕ) → get_elem? w.server.subloops st.index ≡ some l
      → lookup fd l.conns ≡ some a
      → int_rem fd v.server.thread_num ≡ ok st.index
  unfolding EventLoop.newconnection
  same_loop address sock v w st affine fd a l there entry =
      let here = there_is (get_elem? v.server.subloops st.index) st.loop st.loop_lem in
      let lt = found_below v.server.subloops st.index st.loop here in
      let changed : get_elem? w.server.subloops st.index
          ≡ some (EventLoop.newconnection st.loop (getfd sock) address) =
        ap (λ ls. get_elem? ls st.index) st.loops_lem
        ∙ get_elem?-set_at v.server.subloops st.index _ lt in
      let loop_lem : l ≡ EventLoop.newconnection st.loop (getfd sock) address = cc in
      let entry' : lookup fd (insert (getfd sock) address st.loop.conns) ≡ some a =
        ap (λ (k : EventLoop ServerHandler ℕ). lookup fd k.conns) (sym loop_lem) ∙ entry in
      elim (Bool-cases (getfd sock == fd)) [
        | inl same ↦
            ap (λ k. int_rem k v.server.thread_num) (sym ((==_iff (getfd sock) fd).0 same))
            ∙ st.index_lem
        | inr other ↦
            affine st.index fd a st.loop here
              (ground (arith, lookup-insert (getfd sock) fd address st.loop.conns, entry', other))
      ]

  Stored-IsAffine :
      (address : ℕ) (sock : Socket) (v w : Service S U K)
      → Stored act epoll clock aloof address sock v w
      → IsAffine v
      → IsAffine w
  Stored-IsAffine address sock v w st affine i fd a l there entry =
      ap (int_rem fd) st.threads_lem ∙ elim (ℕ_discrete st.index i) [
        | yes e ↦
            same_loop address sock v w st affine fd a l (ap (get_elem? w.server.subloops) e ∙ there)
              entry
            ∙ ap ok e
        | no e ↦
            affine i fd a l
              (sym (get_elem?-set_at_other v.server.subloops st.index i _ e)
                ∙ ap (λ ls. get_elem? ls i) (sym st.loops_lem)
                ∙ there)
              entry
      ]

  Left-IsAffine : (fd : ℕ) (v w : Service S U K) → Left fd v w → IsAffine v → IsAffine w
  Left-IsAffine fd v w left affine i fd' a l there entry =
      ap (int_rem fd') left.same_threads
      ∙ affine i fd' a l (ap (λ ls. get_elem? ls i) (sym left.same_loops) ∙ there) entry

  -- Over every sequence of connections that come and go, on descriptors that are used again too, and for
  -- functions of the user that leave the server alone: a connection is only ever in the table of the loop
  -- whose number is its descriptor modulo the number of threads, if that holds at the beginning, as it
  -- does for empty tables.
  pub Serves-IsAffine :
      {v : Service S U K}
      → IsAffine v
      → {changes : List Change} {w : Service S U K} → Serves act epoll clock v changes w
      → IsAffine w
  Serves-IsAffine affine at_start = affine
  Serves-IsAffine affine (accepts {w = w} order x address channel_address sock run h) =
      Stored-IsAffine address sock w x
        (newconnection-Stored act epoll clock aloof order address channel_address sock w x h)
        (Serves-IsAffine affine run)
  Serves-IsAffine affine (closes {w = w} x address conn run there h) =
      let (u, closed, left) = (leaving_cases act aloof address 0 conn w there).0 in
      Left-IsAffine (get_cfd conn) w x (same_end act epoll clock aloof closed h left)
        (Serves-IsAffine affine run)
  Serves-IsAffine affine (fails {w = w} x address conn run there h) =
      let (u, failed, left) = (leaving_cases act aloof address 0 conn w there).1 in
      Left-IsAffine (get_cfd conn) w x (same_end act epoll clock aloof failed h left)
        (Serves-IsAffine affine run)
  Serves-IsAffine affine (times_out {w = w} x fd run h) =
      let (u, removed, left) = removeconn-Left act aloof fd w in
      Left-IsAffine fd w x (same_end act epoll clock aloof removed h left)
        (Serves-IsAffine affine run)
