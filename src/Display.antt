-- ===== src/Display.antt =====
-- The conversions of objects to texts, and the texts about messages that could not be sent.
use anonymous_communication.Base.{ℕ, List, [], ◌∷◌, ◌++◌, length, ◌==◌, if◌then◌else◌}
use anonymous_communication.Text.{to_string}
use anonymous_communication.Peer.{PeerInformation}
use anonymous_communication.Message.{Pseudonym}
use anonymous_communication.Client.Aad.{AadTuple}
use anonymous_communication.Untrusted.Errors.{SgxError, SgxErrlist, sgx_errlist, codes}
use anonymous_communication.Untrusted.Sockets.{uri_text}

-- The loop over the bytes of a pseudonym.
unfoldable pub bytes_text : List ℕ → List ℕ
unfolding to_string
bytes_text [] = []
bytes_text (b ∷ bs) = to_string b ++ (codes " " ++ bytes_text bs)

unfoldable pub pseudonym_text : Pseudonym → List ℕ
unfolding bytes_text
pseudonym_text p = codes "pseud_: " ++ bytes_text p.pseud

unfoldable pub peer_text : PeerInformation → List ℕ
unfolding to_string uri_text
peer_text p = codes "Id: " ++ (to_string p.id ++ (codes ", " ++ (codes "Uri: " ++ uri_text p.uri)))

-- `JoinMessage::to_string`, of its sender.
unfoldable pub join_text : PeerInformation → List ℕ
unfolding peer_text
join_text sender = codes "\t" ++ (peer_text sender ++ codes "\t (sender) \n")

unfoldable pub aad_text : AadTuple → List ℕ
unfolding peer_text
aad_text a =
    codes "Aad_Tuple: "
    ++ (codes "Sender: "
        ++ (peer_text a.sender
            ++ (codes ", "
                ++ (codes "Receiver: "
                    ++ (peer_text a.receiver
                        ++ (codes ", "
                            ++ (codes "Round: "
                                ++ (to_string a.round
                                    ++ (codes ", "
                                        ++ (codes "p_structure.size(): "
                                            ++ (to_string (length a.p_structure)
                                                ++ codes "\n")))))))))))

-- The texts of the table for a status; the loop does not stop at the first.
unfoldable pub messages_of : (SgxError → ℕ) → ℕ → List SgxErrlist → List (List ℕ)
messages_of status ret [] = []
messages_of status ret (e ∷ entries) =
    let rest = messages_of status ret entries in
    if ret == status (e.error) then e.msg ∷ rest else rest

-- What is printed when the call outside has come back with a status; `success` is `SGX_SUCCESS`.
unfoldable pub try_and_send_msg : (SgxError → ℕ) → ℕ → ℕ → List ℕ → List (List ℕ)
unfolding messages_of sgx_errlist
try_and_send_msg status success ret msg_desc =
    if ret == success
    then []
    else (codes "ocall for sending " ++ (msg_desc ++ codes " failed......\n"))
      ∷ messages_of status ret sgx_errlist
