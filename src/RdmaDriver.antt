-- ===== src/RdmaDriver.antt =====
-- rdma_client::read_remote_node of RDMA/CPU/driver/rdma_driver.cc, and
-- process_work_completion_events of RDMA/CPU/driver/rdma_common.cc. What the verbs library answers to a
-- READ is a parameter: a `Device` answers each READ, with the number of those before it. An error that
-- the functions return is `none`, or false; the messages are left out.
use fat_btree.Run.{Run, Cmd, ok, out_of_fuel, and_then}
use fat_btree.Prelude.{
  ℕ, ◌+◌, ◌≡◌, refl, Bool, true, false, Option, none, some, List, [], ◌∷◌, ◌++◌, leb, length, ◌==◌,
  if◌then◌else◌,
}

-- client_send_wr.wr.rdma
pub record SendWr : Type 0 where
  pub remote_addr : ℕ
  pub rkey : ℕ

-- What ibv_poll_cq answers: an error, or the statuses of the work completions that it stores.
pub data Poll : Type 0 where
  failed : Poll
  polled : List ℕ → Poll

-- The answers to one READ: whether ibv_post_send, ibv_get_cq_event and ibv_req_notify_cq return 0, those
-- of ibv_poll_cq, and what the registered memory of remote_node has after it.
pub record Answers (N : Type 0) : Type 0 where
  pub posted : Bool
  pub event : Bool
  pub notified : Bool
  pub polls : List Poll
  pub memory : N

abbrev pub Device : Type 0 → Type 0
Device N = ℕ → SendWr → Answers N

-- IBV_WC_SUCCESS
abbrev pub success : ℕ
success = 0

-- wc[i].status != IBV_WC_SUCCESS, for no i
unfoldable pub all_succeed : List ℕ → Bool
all_succeed [] = true
all_succeed (x ∷ xs) = if x == success then all_succeed xs else false

-- The loop of ibv_poll_cq, with the statuses so far; `none` is an error.
unfoldable pub poll : ℕ → List ℕ → List Poll → Run (Unit {0}) (Option (List ℕ))
poll max_wc wc [] = out_of_fuel
poll max_wc wc (failed ∷ polls) = ok none tt
poll max_wc wc (polled more ∷ polls) =
    let rest = poll max_wc (wc ++ more) polls in
    if leb max_wc (length (wc ++ more)) then ok (some (wc ++ more)) tt else rest

unfoldable pub process_work_completion_events :
    {N : Type 0} → Answers N → ℕ → Run (Unit {0}) (Option ℕ)
unfolding poll all_succeed
process_work_completion_events a max_wc =
    if a.event
    then if a.notified
      then and_then (poll max_wc [] a.polls) (λ wc _. elim wc [
        | none ↦ ok none tt
        | some l ↦ if all_succeed l then ok (some (length l)) tt else ok none tt
      ])
      else ok none tt
    else ok none tt

-- `remote_node`, the number of READs so far, and the vector read_count of the client.
pub record Local (N : Type 0) : Type 0 where
  pub remote_node : N
  pub reads : ℕ
  pub read_count : List ℕ

module _ {N : Type 0} (device : Device N) (remote_stag : ℕ) where
  -- client_send_wr, for a null pointer and another
  abbrev pub send_wr : Option ℕ → ℕ → SendWr
  send_wr none fbt_key = record { remote_addr = fbt_key; rkey = 0 }
  send_wr (some addr) fbt_key = record { remote_addr = addr; rkey = remote_stag }

  -- Whether it returns 0.
  unfoldable pub read_remote_node : Option ℕ → ℕ → Cmd (Local N) Bool
  unfolding process_work_completion_events
  read_remote_node addr fbt_key s =
      let a = device s.reads (send_wr addr fbt_key) in
      let s1 = record s { reads = s.reads + 1 } in
      if a.posted
      then and_then (process_work_completion_events a 1) (λ ret _. elim ret [
        | none ↦ ok false (record s1 { remote_node = a.memory })
        | some total_wc ↦ ok (total_wc == 1) (record s1 { remote_node = a.memory })
      ])
      else ok false s1

-- Nothing for some polls, and then one work completion, of a READ that succeeded.
pub data Completes : List Poll → Type 0 where
  now : (polls : List Poll) → Completes (polled (success ∷ []) ∷ polls)
  later : (polls : List Poll) → Completes polls → Completes (polled [] ∷ polls)

-- A READ that succeeds, with `n` as what it has read.
pub record Delivers {N : Type 0} (a : Answers N) (n : N) : Type 0 where
  pub posted : a.posted ≡ true
  pub event : a.event ≡ true
  pub notified : a.notified ≡ true
  pub completes : Completes a.polls
  pub memory : a.memory ≡ n

poll-Completes :
    (polls : List Poll) → Completes polls → poll 1 [] polls ≡ ok (some (success ∷ [])) tt
unfolding poll
poll-Completes _ (now polls) = refl
poll-Completes _ (later polls c) = poll-Completes polls c

-- read_remote_node returns 0 after a READ that succeeds, and remote_node is what it has read.
pub read_remote_node-Delivers :
    {N : Type 0} (device : Device N) (remote_stag : ℕ) (addr : Option ℕ) (fbt_key : ℕ) (s : Local N)
    (n : N)
    → Delivers (device s.reads (send_wr device remote_stag addr fbt_key)) n
    → read_remote_node device remote_stag addr fbt_key s
      ≡ ok true (record s { remote_node = n; reads = s.reads + 1 })
unfolding read_remote_node process_work_completion_events all_succeed
read_remote_node-Delivers device remote_stag addr fbt_key s n d =
    rw (d.posted, d.event, d.notified, poll-Completes _ d.completes, d.memory) refl
