-- ===== src/Client/Send.antt =====
-- `send_message` and `receive_message` of client/trusted/client_enclave.cpp.
use anonymous_communication.Base.{
  ℕ, suc, ◌%◌, ◌^◌, Bool, false, not, List, [], ◌∷◌, Option, none, some, Result, ok, err, undefined,
  ◌>>=◌, checked, length, take, get_elem?, set, ltb, leb, if◌then◌else◌, sign_extend, ◌-u64◌,
  ◌+u64◌, ◌*u64◌,
}
use anonymous_communication.Config.{
  message_size, delta, k_send, calculate_agreement_time, calculate_routing_time,
  calculate_round_from_t,
}
use anonymous_communication.Std.{nat_less, update, find}
use anonymous_communication.Message.{Pseudonym, Message, MessageTuple}
use anonymous_communication.Crypt.{Primitives}
use anonymous_communication.Client.{ClientEnclave, push_queue}
use anonymous_communication.Client.Pseudonyms.{Clock, get_time, decrypt_pseudonym, has_pseudonym}

-- `t_dst - (... + 4) * 4 * kDelta`, in `uint64_t`.
unfoldable pub latest_time : ℕ → ℕ → ℕ
latest_time dim t_dst =
    t_dst
    -u64 (calculate_agreement_time dim +u64 calculate_routing_time dim +u64 4) *u64 4 *u64 delta

-- `int l_dst = ...`, and back to the key of the map.
unfoldable pub round_key : ℕ → ℕ
round_key t_dst = sign_extend (calculate_round_from_t t_dst % 2 ^ 32)

-- `count (l_dst) != 0 && [l_dst] >= kSend`.
unfoldable pub limit_reached : ℕ → List (ℕ × ℕ) → Bool
limit_reached key entries = elim (find key entries) [ none ↦ false | some n ↦ leb k_send n ]

-- What is done with a message whose source is the pseudonym number `num` of this node.
unfoldable pub accept_message : ℕ → ℕ → MessageTuple → ClientEnclave → Result ClientEnclave
unfolding limit_reached
accept_message now num m st =
    if ltb (latest_time st.overlay_dimension m.t_dst) now
    then ok st
    else checked (get_elem? st.num_q_out_entries num) >>= λ entries.
        if limit_reached (round_key m.t_dst) entries
        then ok st
        else ok (record st {
          q_out = push_queue m st.q_out;
          num_q_out_entries =
              set st.num_q_out_entries num (update (round_key m.t_dst) 0 suc entries);
        })

unfoldable pub send_message :
    Primitives → Clock → Pseudonym → Message → Pseudonym → ℕ → ClientEnclave → Result ClientEnclave
send_message crypto clock n_src msg n_dst t_dst st =
    if not st.initialized
    then ok st
    else decrypt_pseudonym crypto st n_src >>= λ source.
        if not (has_pseudonym source st.pseudonyms)
        then ok st
        else get_time st clock >>= λ now.
            accept_message now source.local_num
              (record { n_src = n_src; m = msg; n_dst = n_dst; t_dst = t_dst }) st

-- What `receive_message` writes through its pointers; it writes nothing through `n_src`.
pub record Received : Type 0 where
  pub n_dst : List ℕ
  pub msg : List ℕ
  pub t_dst : ℕ

-- `std::copy (data, data + count, ...)`; a read past the end of the array is undefined.
unfoldable pub copy_out : ℕ → List ℕ → Result (List ℕ)
copy_out count array = if leb count (length array) then ok (take count array) else err undefined

-- The queue of a pseudonym of this node: `top ()` of an empty queue is undefined.
unfoldable pub deliver_top :
    ℕ → ℕ → List MessageTuple → ClientEnclave → Result (Option Received × ClientEnclave)
deliver_top now num [] st = err undefined
deliver_top now num (top ∷ queue) st =
    if ltb now top.t_dst
    then ok (none, st)
    else copy_out message_size top.m.msg >>= λ msg.
        copy_out message_size top.n_dst.pseud >>= λ n_dst. ok (
          some (record { n_dst = n_dst; msg = msg; t_dst = top.t_dst }),
          record st { q_in_for_pseudonyms = set st.q_in_for_pseudonyms num queue },
        )

-- `none` is the result `false`.
unfoldable pub receive_message :
    Primitives → Clock → Pseudonym → ClientEnclave → Result (Option Received × ClientEnclave)
receive_message crypto clock n_dst st =
    if not st.initialized
    then ok (none, st)
    else decrypt_pseudonym crypto st n_dst >>= λ own.
        if not (has_pseudonym own st.pseudonyms)
        then ok (none, st)
        else checked (get_elem? st.q_in_for_pseudonyms own.local_num) >>= λ queue.
            get_time st clock >>= λ now. deliver_top now own.local_num queue st
