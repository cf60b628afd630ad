-- ===== src/Responder/Names.antt =====
-- The receiver's answers: a request for a known name, a request for an unknown one, and a reply.
use name_spread.Prelude.{ℕ, ◌+◌, ◌<◌, ◌≡◌, refl, true, Bool, Option, none, some, List, [], ◌∙◌}
use name_spread.Text.{Str, fits}
use name_spread.Machine.Run.{Run, Cmd, and_then}
use name_spread.Machine.Ensures.{Ensures}
use name_spread.Machine.Cfu.{Cfu}
use name_spread.Machine.System.{System}
use name_spread.Machine.World.{World}
use name_spread.Logger.{CanLog}
use name_spread.Logger.Yields.{quiet, Yields, Yields-bind, Yields-quiet, log-Yields, log-last}
use name_spread.Hosts.{hosts_path, get_name_by_addr}
use name_spread.Hosts.Files.{contents}
use name_spread.Hosts.Table.{HostLine, lookup_name}
use name_spread.Hosts.Cache.{HoldsTable, get_name_by_addr-lookup}
use name_spread.Network.{nreq_text, nrep_text, nrep_max_len, with_packet}
use name_spread.Timers.Ids.{FirstFree}
use name_spread.Pnr.Waiting.{Waiting, register_nreq-enlist}
use name_spread.Pnr.Requesters.{enlist}
use name_spread.Responder.{handle_message, want_name, handle_nreq, send_name}
use name_spread.Responder.Messages.{IsWord, request-words, nreq_text-strstr}

module _ ⦃pnr_table : Cfu ℕ⦄ ⦃timer_table : Cfu Str⦄ ⦃sys : System⦄ where
  -- A text with its NUL fits an array of `size` bytes.
  abbrev pub FitsArray : ℕ → Str → Type 0
  FitsArray size text = fits (sys.array_room size) text ≡ true

  abbrev pub counted : World → World
  counted w = record w { total_nreps_reveived = w.total_nreps_reveived + 1 }

  -- The world after the requester has been sent the name.
  abbrev pub told : ℕ → Str → Str → World → World
  told requester dst name w =
      let v = with_packet requester (nrep_text (some dst) (some name)) (counted w) in
      record v { total_nreps = w.total_nreps + 1 }

  Ensures-then :
      {A B : Type 0} {a : A} {w : World} {m : Run World A} {P : B → World → Type 0}
      (k : A → Cmd World B)
      → Yields a w m
      → ((l : List (Str × Str)) (p : List Bool) → Ensures P (k a (quiet w l p)))
      → Ensures P (and_then m k)
  Ensures-then k y next = rw (y.run, and_then) (next y.logs y.popens)

  module _ (dst : Str) (ls : List HostLine) (w : World) (can : CanLog w) (is : IsWord dst)
      (holds : HoldsTable 512 ls w) where
    -- The name that the table has, in a world with the same table.
    pub cached :
        (v : World) (name : Option Str)
        → CanLog v
        → contents hosts_path v ≡ contents hosts_path w
        → lookup_name dst ls ≡ name
        → Yields name v (get_name_by_addr (some dst) v)
    cached v name can' same known = rw known at (
        get_name_by_addr-lookup dst ls v can' is.one_line
          (record { text = same ∙ holds.text; lines = holds.lines }))

    want_name-known :
        (requester : ℕ) (name : Str)
        → lookup_name dst ls ≡ some name
        → FitsArray nrep_max_len (nrep_text (some dst) (some name))
        → Yields tt (told requester dst name w) (want_name requester (some dst) (counted w))
    unfolding want_name send_name
    want_name-known requester name known fit = Yields-bind _ (log-Yields _ (counted w) can) λ l p.
        Yields-bind _
          (Yields-quiet (counted w) l p (cached (quiet (counted w) l p) (some name) can refl known))
          λ l p. rw fit (log-last _ (told requester dst name w) l p can)

    -- Let the log be writable, and the address be a one-line word that has a name in the table
    -- such that the reply fits the send buffer. Then the handling of a request for it returns,
    -- having sent the sender one datagram, the reply with the name, counted it and the request,
    -- and changed nothing else but the log.
    pub handle_message-known :
        (requester : ℕ) (name : Str)
        → lookup_name dst ls ≡ some name
        → FitsArray nrep_max_len (nrep_text (some dst) (some name))
        → Yields tt (told requester dst name w) (handle_message requester (nreq_text (some dst)) w)
    unfolding handle_message handle_nreq
    handle_message-known requester name known fit =
        rw (nreq_text-strstr dst, request-words dst is) (want_name-known requester name known fit)

    want_name-unknown :
        (requester i : ℕ) (vs : List (Option Str))
        → lookup_name dst ls ≡ none
        → sys.handler_set ≡ true
        → FirstFree w.timer_ids i
        → 0 < w.heap.room
        → Waiting (some dst) vs w
        → Ensures
            (λ _ v. Waiting (some dst) (enlist (some (sys.inet_ntoa requester)) vs) v)
            (want_name requester (some dst) (counted w))
    unfolding want_name
    want_name-unknown requester i vs new set_up first room wait =
        Ensures-then _ (log-Yields _ (counted w) can) λ l p.
          Ensures-then _ (cached (quiet (counted w) l p) none can refl new) λ l p.
            (register_nreq-enlist (quiet (counted w) l p) dst (some [])
              (some (sys.inet_ntoa requester)) can i vs set_up first room
              (record {
                cells = wait.cells;
                head = wait.head;
                vals = wait.vals;
                chain = wait.chain;
                heap = wait.heap;
              }))

    -- Let the log be writable, malloc have memory, sigaction succeed and a timer id be free, and
    -- the address be a one-line word without a name in the table. Then the handling of a request
    -- for it returns, and the sender is listed once among the address's requesters, behind those
    -- that were there.
    pub handle_message-unknown :
        (requester i : ℕ) (vs : List (Option Str))
        → lookup_name dst ls ≡ none
        → sys.handler_set ≡ true
        → FirstFree w.timer_ids i
        → 0 < w.heap.room
        → Waiting (some dst) vs w
        → Ensures
            (λ _ v. Waiting (some dst) (enlist (some (sys.inet_ntoa requester)) vs) v)
            (handle_message requester (nreq_text (some dst)) w)
    unfolding handle_message handle_nreq
    handle_message-unknown requester i vs new set_up first room wait =
        rw (nreq_text-strstr dst, request-words dst is)
          (want_name-unknown requester i vs new set_up first room wait)
