-- ===== src/Responder/Replies.antt =====
-- The handling of replies: a name that is stored and passed on, a name that is known, and the copy.
use name_spread.Prelude.{
  ℕ, ◌+◌, ◌≡◌, refl, true, false, Bool, Option, none, some, List, [], ◌∷◌, ◌++◌, leb, length, arith,
}
use name_spread.Text.{Str, codes, shown, space, strstr, after_last}
use name_spread.Machine.Run.{fault}
use name_spread.Machine.Cfu.{Cfu}
use name_spread.Machine.System.{System}
use name_spread.Machine.World.{World}
use name_spread.Logger.{CanLog}
use name_spread.Logger.Yields.{quiet, Yields, Yields-bind, Yields-here, Yields-quiet, log-then}
use name_spread.LinkedList.Chain.{Cells, head_of, values, Chain, IsHeap}
use name_spread.Hosts.Lookup.{lookup_name-append}
use name_spread.Hosts.{get_name_by_addr, hosts_path, cache_name, add_entry}
use name_spread.Text.Tokens.{strtok-last}
use name_spread.Hosts.Table.{HostLine, IsLine, entry, lookup_name}
use name_spread.Hosts.Cache.{
  HoldsTable, with_name, cache_name-new, with_name-HoldsTable, get_name_by_addr-lookup,
}
use name_spread.Network.{nrep_text, with_socket}
use name_spread.Timers.{pnr, delete_pnr}
use name_spread.Pnr.Requesters.{Reached, with_replies, respond_to_pnrs-Reached}
use name_spread.Responder.{handle_message, take_name, handle_nrep, accept_name}
use name_spread.Responder.Messages.{IsWord, reply-words, reply-name, nrep_text-strstr}
use name_spread.Responder.Names.{FitsArray, cached}

no_room : (n : ℕ) → leb (n + 1) n ≡ false
no_room n = ground arith

module _ ⦃pnr_table : Cfu ℕ⦄ ⦃timer_table : Cfu Str⦄ ⦃sys : System⦄ where
  -- The world after the name has been stored and the text sent on.
  abbrev pub passed_on : Str → Str → Str → List HostLine → List ℕ → World → World
  passed_on dst name text ls tos w =
      let v = with_replies text tos (with_socket (with_name dst name ls w)) in
      record v { pnrs = pnr_table.delete w.pnrs dst }

  -- The world after the reply has been stored and sent on.
  abbrev pub accepted : Str → Str → List HostLine → List ℕ → World → World
  accepted dst name ls tos w = passed_on dst name (nrep_text (some dst) (some name)) ls tos w

  -- The name that has been stored is found.
  pub passed_on-named :
      (dst name text : Str) (ls : List HostLine) (tos : List ℕ) (w : World) (l : List (Str × Str))
      (p : List Bool)
      → CanLog w
      → IsWord dst
      → HoldsTable 512 ls w
      → lookup_name dst ls ≡ none
      → IsLine 512 (entry dst name)
      → Yields
          (some name)
          (quiet (passed_on dst name text ls tos w) l p)
          (get_name_by_addr (some dst) (quiet (passed_on dst name text ls tos w) l p))
  passed_on-named dst name text ls tos w l p can is holds new is_line =
      let held = with_name-HoldsTable 512 dst name ls w holds is_line in
      rw (lookup_name-append dst name ls new) at (
        get_name_by_addr-lookup dst (ls ++ entry dst name ∷ [])
          (quiet (passed_on dst name text ls tos w) l p) can is.one_line
          (record { text = held.text; lines = held.lines }))

  -- printf writes a NULL name as "(null)".
  cache_name-shown :
      (dst : Str) (name : Option Str) (w : World)
      → cache_name (some dst) name w ≡ cache_name (some dst) (some (shown name)) w
  unfolding cache_name add_entry
  cache_name-shown dst none w = refl
  cache_name-shown dst (some n) w = refl

  module _ (dst : Str) (ls : List HostLine) (w : World) (can : CanLog w) (is : IsWord dst)
      (holds : HoldsTable 512 ls w) where
    cache_name-stored :
        (name : Option Str) (v : World)
        → CanLog v
        → sys.writable hosts_path ≡ true
        → HoldsTable 512 ls v
        → lookup_name dst ls ≡ none
        → Yields tt (with_name dst (shown name) ls v) (cache_name (some dst) name v)
    cache_name-stored name v can' open_ok holds' new =
        rw (cache_name-shown dst name v)
          (cache_name-new dst (shown name) ls v can' open_ok is.one_line holds' new)

    -- A name, NULL included, is stored, and the text is sent on.
    pub take_name-passed_on :
        (cs : Cells) (tos : List ℕ)
        → lookup_name dst ls ≡ none
        → sys.writable hosts_path ≡ true
        → IsHeap w.heap
        → Chain w.heap cs
        → pnr (some dst) w ≡ head_of cs
        → Reached (values cs) tos
        → (name : Option Str) (text last : Str) → after_last space text ≡ some last
        → Yields tt (passed_on dst (shown name) text ls tos w) (take_name (some dst) name text w)
    unfolding take_name accept_name delete_pnr
    take_name-passed_on cs tos new open_ok heap chain at reached name text last end =
        let v = with_name dst (shown name) ls w in
        Yields-bind _ (cached dst ls w can is holds w none can refl new) λ l p.
          log-then _ w (passed_on dst (shown name) text ls tos w) l p _ can λ l p.
            Yields-bind _
              (Yields-quiet v l p (
                cache_name-stored name (quiet w l p) can open_ok
                  (record { text = holds.text; lines = holds.lines }) new))
              λ l p.
                Yields-bind _
                  (respond_to_pnrs-Reached v l p (some dst) cs tos text last can heap chain at
                    reached end)
                  λ l p. Yields-here tt (passed_on dst (shown name) text ls tos w) l p

    module _ (name : Str) (requester : ℕ) (word : IsWord name)
        (tagged : strstr (nrep_text (some dst) (some name)) (codes "NREQ") ≡ false)
        (fit : FitsArray
          (length (nrep_text (some dst) (some name)))
          (nrep_text (some dst) (some name))) where
      handle_message-take_name :
          handle_message requester (nrep_text (some dst) (some name)) w
          ≡ take_name (some dst) (some name) (nrep_text (some dst) (some name)) w
      unfolding handle_message handle_nrep
      handle_message-take_name =
          rw
            (
              tagged,
              nrep_text-strstr dst name,
              fit,
              reply-words dst name is,
              strtok-last space name word.token,
            )
            refl

      take_name-known :
          (known_name : Str)
          → lookup_name dst ls ≡ some known_name
          → Yields tt w (take_name (some dst) (some name) (nrep_text (some dst) (some name)) w)
      unfolding take_name
      take_name-known known_name known =
          Yields-bind _ (cached dst ls w can is holds w (some known_name) can refl known)
            λ l p. Yields-here tt w l p

      -- Let the log be writable, the words of the reply be one-line words, and the reply fit its
      -- copy and not contain "NREQ". If the table has a name for its address already, the handling
      -- of the reply returns and changes nothing but the log.
      handle_message-repeated :
          (known_name : Str)
          → lookup_name dst ls ≡ some known_name
          → Yields tt w (handle_message requester (nrep_text (some dst) (some name)) w)
      handle_message-repeated known_name known =
          rw handle_message-take_name (take_name-known known_name known)

      module _ (cs : Cells) (tos : List ℕ) (new : lookup_name dst ls ≡ none)
          (open_ok : sys.writable hosts_path ≡ true) (heap : IsHeap w.heap)
          (chain : Chain w.heap cs) (at : pnr (some dst) w ≡ head_of cs)
          (reached : Reached (values cs) tos) where
        -- Let the log and /etc/hosts be writable, the table have no name for the address, the
        -- words of the reply be one-line words, the reply fit its copy and not contain "NREQ", and
        -- each requester's address be readable. Then the handling of the reply returns. It has
        -- appended the name to the table and counted it, sent the reply's text on to each
        -- requester on the address's list in order, local requests left out, with each datagram
        -- counted, deleted the address from the pending requests, and changed nothing else but the
        -- log and one socket.
        pub handle_message-accepted :
            Yields tt
              (accepted dst name ls tos w)
              (handle_message requester (nrep_text (some dst) (some name)) w)
        handle_message-accepted = rw handle_message-take_name (
            take_name-passed_on cs tos new open_ok heap chain at reached (some name)
              (nrep_text (some dst) (some name)) name (reply-name dst name word))

  -- If no more than n bytes can be written to an array of n bytes, n the length of a reply, its
  -- handling writes behind the array.
  handle_nrep-overflow :
      (text : Str) (w : World)
      → sys.array_room (length text) ≡ length text
      → handle_nrep text w ≡ fault
  unfolding handle_nrep
  handle_nrep-overflow text w exact = rw (exact, no_room (length text)) refl
