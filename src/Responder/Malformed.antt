-- ===== src/Responder/Malformed.antt =====
-- Datagrams that the program does not send itself: a word is missing, or the NUL at the end.
use name_spread.Prelude.{
  ℕ, ◌+◌, ◌≤◌, ◌≡◌, refl, true, false, Bool, Bool-cases, inl, inr, ◌||◌, none, some, List, [], ◌∷◌,
  ◌++◌, length, take, drop, arith, ap, zero, suc, append-nil,
}
use name_spread.Text.{
  Str, codes, space, strtok, strstr, c_string, Lacks, attach, pieces, fgets_lines, fits,
}
use name_spread.Machine.Run.{Run, Cmd, fault, and_then}
use name_spread.Machine.Cfu.{Cfu}
use name_spread.Machine.System.{System}
use name_spread.Machine.World.{World}
use name_spread.Logger.{CanLog}
use name_spread.Logger.Yields.{quiet, Yields, log-Yields}
use name_spread.Hosts.{hosts_path, find_name, same_text, get_name_by_addr}
use name_spread.Hosts.Files.{contents}
use name_spread.Hosts.Cache.{wait_popen-Yields}
use name_spread.Network.{nrep_max_len}
use name_spread.LinkedList.Chain.{Cells, head_of, values, Chain, IsHeap}
use name_spread.Text.Tokens.{strtok-front, strtok-last}
use name_spread.Text.{starts_with, after_last}
use name_spread.Timers.{pnr}
use name_spread.Hosts.Table.{HostLine, IsLine, entry, lookup_name}
use name_spread.Hosts.Cache.{HoldsTable}
use name_spread.Pnr.Requesters.{Reached}
use name_spread.Responder.Messages.{IsWord, tag-IsToken, after_last-token}
use name_spread.Responder.Names.{FitsArray}
use name_spread.Responder.Replies.{passed_on, take_name-passed_on, passed_on-named}
use name_spread.Machine.Run.{◌>>◌}
use name_spread.Logger.Yields.{Yields-bind, Yields-quiet}
use name_spread.Responder.{
  received, listen_step, handle_message, handle_nreq, handle_nrep, want_name, take_name,
}

attach-cons :
    (b : Bool) (c : ℕ) (ls : List Str) → (k : Str) × (ks : List Str) × (attach b c ls ≡ k ∷ ks)
attach-cons true c ls = (c ∷ [], ls, refl)
attach-cons false c [] = (c ∷ [], [], refl)
attach-cons false c (l ∷ ls) = (c ∷ l, ls, refl)

-- A file that is not empty has a line.
fgets_lines-cons :
    (size c : ℕ) (s : Str) → (k : Str) × (ks : List Str) × (fgets_lines size (c ∷ s) ≡ k ∷ ks)
unfolding fgets_lines pieces
fgets_lines-cons size c s = attach-cons _ c _

find_name-null :
    {S : Type 0} (line : Str) (lines : List Str) (w : S) → find_name none (line ∷ lines) w ≡ fault
unfolding find_name same_text
find_name-null line lines w = ground arith

c_string-Lacks : (bs : List ℕ) → Lacks 0 bs → c_string bs ≡ none
unfolding c_string
c_string-Lacks [] h = refl
c_string-Lacks (b ∷ bs) h = rw (c_string-Lacks bs h.1, h.0) refl

drop-all : (n : ℕ) (xs : List ℕ) → length xs ≤ n → drop n xs ≡ []
drop-all zero [] h = refl
drop-all zero (x ∷ xs) h = absurd (omega arith)
drop-all (suc n) [] h = refl
drop-all (suc n) (x ∷ xs) h = drop-all n xs (omega arith)

length-take_le : (n : ℕ) (xs : List ℕ) → n ≤ length xs → length (take n xs) ≡ n
length-take_le zero xs h = refl
length-take_le (suc n) [] h = absurd (omega arith)
length-take_le (suc n) (x ∷ xs) h = ap suc (length-take_le n xs (omega arith))

-- A reply without a name for the address.
abbrev pub nameless : Str → Str
nameless dst = codes "NREP " ++ dst

nameless-words :
    (dst : Str) → IsWord dst → strtok space (strtok space (nameless dst)).1 ≡ (some dst, [])
nameless-words dst is =
    rw (strtok-front space (codes "NREP") dst (tag-IsToken 80 refl))
      (strtok-last space dst is.token)

nameless-strstr : (dst : Str) → strstr (nameless dst) (codes "NREP") ≡ true
unfolding strstr starts_with
nameless-strstr dst = refl

nameless-last : (dst : Str) → IsWord dst → after_last space (nameless dst) ≡ some dst
nameless-last dst is = after_last-token space (codes "NREP") dst is.token.lacks

module _ ⦃pnr_table : Cfu ℕ⦄ ⦃timer_table : Cfu Str⦄ ⦃sys : System⦄ where
  fault-then :
      {A B : Type 0} {a : A} {w : World} {m : Run World A} (k : A → Cmd World B)
      → Yields a w m
      → ((l : List (Str × Str)) (p : List Bool) → k a (quiet w l p) ≡ fault)
      → and_then m k ≡ fault
  fault-then k y next = rw (y.run, and_then) (next y.logs y.popens)

  -- A NULL address is compared with the first line's.
  get_name_by_addr-null :
      (c : ℕ) (s : Str) (w : World)
      → CanLog w
      → contents hosts_path w ≡ c ∷ s
      → get_name_by_addr none w ≡ fault
  unfolding get_name_by_addr
  get_name_by_addr-null c s w can text =
      let (k, ks, e) = fgets_lines-cons 512 c s in
      fault-then _ (wait_popen-Yields _ w can)
        λ l p. rw (text, e) (find_name-null k ks (quiet w l p))

  module _ (requester c : ℕ) (s text : Str) (w : World) (can : CanLog w)
      (some_name : contents hosts_path w ≡ c ∷ s)
      (no_word : (strtok space (strtok space text).1).0 ≡ none) where
    want_name-null :
        (v : World) → CanLog v → contents hosts_path v ≡ c ∷ s → want_name requester none v ≡ fault
    unfolding want_name
    want_name-null v can' e =
        fault-then _ (log-Yields _ v can')
          λ l p. rw (get_name_by_addr-null c s (quiet v l p) can' e) refl

    handle_nreq-null : handle_nreq requester text w ≡ fault
    unfolding handle_nreq
    handle_nreq-null = rw no_word (
        want_name-null (record w { total_nreps_reveived = w.total_nreps_reveived + 1 }) can
          some_name)

    handle_nrep-null : handle_nrep text w ≡ fault
    unfolding handle_nrep take_name
    handle_nrep-null = elim (Bool-cases (fits (sys.array_room (length text)) text)) [
      | inl e ↦ rw (e, no_word, get_name_by_addr-null c s w can some_name) refl
      | inr e ↦ rw e refl
    ]

    -- If the log is writable, /etc/hosts is not empty and a text with "NREQ" or "NREP" in it has
    -- no second word, its handling follows a NULL pointer, or it is a reply that does not fit its
    -- copy and is written behind the array.
    pub handle_message-no_address :
        (strstr text (codes "NREQ") || strstr text (codes "NREP")) ≡ true
        → handle_message requester text w ≡ fault
    unfolding handle_message
    handle_message-no_address tag = elim (Bool-cases (strstr text (codes "NREQ"))) [
      | inl e ↦ rw e handle_nreq-null
      | inr e ↦
          let reply : strstr text (codes "NREP") ≡ true = ground (arith, tag, e) in
          rw (e, reply) handle_nrep-null
    ]

  module _ (dst : Str) (ls : List HostLine) (w : World) (can : CanLog w) (is : IsWord dst)
      (holds : HoldsTable 512 ls w) (requester : ℕ)
      (tagged : strstr (nameless dst) (codes "NREQ") ≡ false)
      (fit : FitsArray (length (nameless dst)) (nameless dst)) (cs : Cells) (tos : List ℕ)
      (new : lookup_name dst ls ≡ none) (open_ok : sys.writable hosts_path ≡ true)
      (heap : IsHeap w.heap) (chain : Chain w.heap cs) (at : pnr (some dst) w ≡ head_of cs)
      (reached : Reached (values cs) tos) where
    handle_message-nameless :
        Yields tt
          (passed_on dst (codes "(null)") (nameless dst) ls tos w)
          (handle_message requester (nameless dst) w)
    unfolding handle_message handle_nrep strtok
    handle_message-nameless =
        rw (tagged, nameless-strstr dst, fit, nameless-words dst is)
          (take_name-passed_on dst ls w can is holds cs tos new open_ok heap chain at reached none
            (nameless dst) dst (nameless-last dst is))

    -- Let the log and /etc/hosts be writable, the table of lines that fit the buffer have no name
    -- for the address, a one-line word, let "NREP" with the address alone fit its copy and not
    -- contain "NREQ", let the heap have handed out no address from `fresh` on, each requester's
    -- address be readable and the line of the address with "(null)" be one of the table. Then the
    -- handling of this reply without a name returns; it has stored "(null)" as the address's name,
    -- sent the reply on to each requester on the list and deleted the address from the pending
    -- requests, and "(null)" is what get_name_by_addr returns for the address then.
    pub handle_message-no_name :
        IsLine 512 (entry dst (codes "(null)"))
        → Yields
            (some (codes "(null)"))
            (passed_on dst (codes "(null)") (nameless dst) ls tos w)
            ((handle_message requester (nameless dst) >> get_name_by_addr (some dst)) w)
    handle_message-no_name line = Yields-bind _ handle_message-nameless λ l p.
        Yields-quiet (passed_on dst (codes "(null)") (nameless dst) ls tos w) l p
          (passed_on-named dst (codes "(null)") (nameless dst) ls tos w l p can is holds new line)

  -- If the first NREP_MAX_LEN bytes of a datagram, as many as the receive buffer has, contain no
  -- NUL, the text is read behind the buffer's end.
  pub listen_step-unterminated :
      (old : List ℕ) (requester : ℕ) (datagram : List ℕ) (w : World)
      → length old ≡ nrep_max_len
      → nrep_max_len ≤ length datagram
      → Lacks 0 (take nrep_max_len datagram)
      → listen_step old requester datagram w ≡ fault
  unfolding listen_step received
  listen_step-unterminated old requester datagram w room long no_nul =
      rw
        (
          length-take_le nrep_max_len datagram long,
          drop-all nrep_max_len old (omega (arith, room)),
          append-nil (take nrep_max_len datagram),
          c_string-Lacks (take nrep_max_len datagram) no_nul,
        )
        refl
