-- ===== src/Tests/Messages.antt =====
-- Datagrams that arrive at a station.
use name_spread.Prelude.{◌≡◌, refl, some, [], ◌∷◌, ◌++◌, arith}
use name_spread.Text.{Str, codes, str_eq, strstr}
use name_spread.Machine.World.{Heap}
use name_spread.LinkedList.Chain.{SameOutside}
use name_spread.Machine.Run.{fault}
use name_spread.Machine.Cfu.{key_eq}
use name_spread.Logger.Yields.{Yields}
use name_spread.Hosts.Table.{lookup_name}
use name_spread.Hosts.Cache.{HoldsTable}
use name_spread.Network.{nreq_text, nrep_text}
use name_spread.Pnr.Requesters.{all, local, remote}
use name_spread.Responder.{listen_loop, listen_step, cleared, handle_message}
use name_spread.Responder.Messages.{IsWord}
use name_spread.Responder.Exchange.{listen_loop-exchange}
use name_spread.Pnr.Register.{opened}
use name_spread.Responder.Names.{counted, told, handle_message-known}
use name_spread.Responder.Replies.{accepted, handle_message-accepted}
use name_spread.Responder.Malformed.{
  nameless, handle_message-no_address, handle_message-no_name, listen_step-unterminated,
}
use name_spread.Responder.Replies.{passed_on}
use name_spread.Hosts.{get_name_by_addr}
use name_spread.Machine.Run.{◌>>◌}
use name_spread.Text.{strtok}
use name_spread.Prelude.{replicate}
use name_spread.Tests.Setup.{pnr_cfu, timer_cfu, test_system}
use name_spread.Tests.Files.{host, table, host-HoldsTable_long}
use name_spread.Tests.Requests.{
  host-FirstFree, dst, pending, two_requesters, two_nodes-IsHeap, two_nodes-Chain,
}

pub dst-IsWord : IsWord dst
dst-IsWord = record {
  token = record { some_byte = λ e. ground arith; lacks = ground arith };
  one_line = ground arith;
}

abbrev pub sta2 : Str
sta2 = codes "10.0.0.2"

pub sta2-IsWord : IsWord sta2
sta2-IsWord = record {
  token = record { some_byte = λ e. ground arith; lacks = ground arith };
  one_line = ground arith;
}

pub name-IsWord : IsWord (codes "sta3")
name-IsWord = record {
  token = record { some_byte = λ e. ground arith; lacks = ground arith };
  one_line = ground arith;
}

pub pending-HoldsTable : HoldsTable 512 table pending
unfolding str_eq
pending-HoldsTable = record { text = refl; lines = host-HoldsTable_long.lines }

handle_message-known_example :
    Yields tt (told 7 sta2 (codes "sta2") host) (handle_message 7 (nreq_text (some sta2)) host)
unfolding lookup_name str_eq
handle_message-known_example =
    handle_message-known sta2 table host refl sta2-IsWord host-HoldsTable_long 7 (codes "sta2") refl
      refl

handle_message-accepted_example :
    Yields tt
      (accepted dst (codes "sta3") table (55 ∷ []) pending)
      (handle_message 7 (nrep_text (some dst) (some (codes "sta3"))) pending)
unfolding lookup_name str_eq strstr key_eq
handle_message-accepted_example =
    handle_message-accepted dst table pending refl dst-IsWord pending-HoldsTable (codes "sta3") 7
      name-IsWord refl refl two_requesters (55 ∷ []) refl refl two_nodes-IsHeap two_nodes-Chain refl
      (local (remote refl all))

listen_loop-exchange_example :
    (g : Heap) × Yields tt
      (accepted dst (codes "sta3") table (7 ∷ []) (opened 0 dst g (counted host)))
      (listen_loop
        (1 ∷ 2 ∷ [])
        ((7, nreq_text (some dst) ++ 0 ∷ [])
          ∷ (50, nrep_text (some dst) (some (codes "sta3")) ++ 0 ∷ [])
          ∷ [])
        host)
    × SameOutside ((1, some (7 ∷ [])) ∷ []) host.heap g
unfolding lookup_name str_eq strstr
listen_loop-exchange_example =
    listen_loop-exchange dst (codes "sta3") table host refl dst-IsWord name-IsWord
      host-HoldsTable_long refl 7 0 refl host-FirstFree refl (1 ∷ 2 ∷ []) 50 refl
      (record { fresh_pos = omega arith; unused = λ a le. refl }) (omega arith) (omega arith)
      (ground arith, omega arith) (ground arith, omega arith) refl refl

handle_message-no_address_example : handle_message 7 (codes "NREQ") host ≡ fault
unfolding strtok strstr str_eq
handle_message-no_address_example =
    handle_message-no_address 7 _ _ (codes "NREQ") host refl refl refl refl

handle_message-no_name_example :
    Yields
      (some (codes "(null)"))
      (passed_on dst (codes "(null)") (nameless dst) table (55 ∷ []) pending)
      ((handle_message 7 (nameless dst) >> get_name_by_addr (some dst)) pending)
unfolding lookup_name str_eq strstr key_eq
handle_message-no_name_example =
    handle_message-no_name dst table pending refl dst-IsWord pending-HoldsTable 7 refl refl
      two_requesters (55 ∷ []) refl refl two_nodes-IsHeap two_nodes-Chain refl
      (local (remote refl all)) (ground arith)

listen_step-unterminated_example : listen_step cleared 7 (replicate 100 65) host ≡ fault
listen_step-unterminated_example =
    listen_step-unterminated cleared 7 (replicate 100 65) host refl (omega arith) (ground arith)
