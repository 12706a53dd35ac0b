-- ===== src/Msg/Layout.antt =====
-- The bytes of each message, as KRPC writes it down: a dictionary with the fields in place.
use dht_cpp.Base.{
  AreBytes, ℕ, suc, Bool, true, ◌&&◌, [], ◌∷◌, ◌++◌, bit_xor, Bytes, codes, length, ◌==◌, ==_iff,
  and_parts, all_below, all_below_sound, ◌≡◌, refl, ap, arith,
}
use dht_cpp.Dht.{Nih, IsNih, PNode, our_tok_pg, our_tok_gp, our_tok_fn, our_token}
use dht_cpp.Msg.{sid_mask, u16_bytes, pnode_raw, tok_prefix}

xor_with : Bytes → Bytes → Bytes
xor_with [] ms = []
xor_with (x ∷ xs) [] = x ∷ xs
xor_with (x ∷ xs) (m ∷ ms) = bit_xor x m ∷ xor_with xs ms

length-xor_with : (xs ms : Bytes) → length (xor_with xs ms) ≡ length xs
unfolding xor_with
length-xor_with [] ms = refl
length-xor_with (x ∷ xs) [] = refl
length-xor_with (x ∷ xs) (m ∷ ms) = ap suc (length-xor_with xs ms)

-- The id under which this node answers for `nid`.
unfoldable pub sid : Nih → Nih
unfolding xor_with
sid nid = xor_with nid sid_mask

pub sid-IsNih : (nid : Nih) → IsNih nid → IsNih (sid nid)
unfolding sid
sid-IsNih nid h = omega (arith, length-xor_with nid sid_mask)

-- For each byte of the mask, every byte comes back after two steps.
undone : Bytes → Bool
undone [] = true
undone (m ∷ ms) = all_below 256 (λ x. bit_xor (bit_xor x m) m == x) && undone ms

xor_with_twice :
    (xs ms : Bytes) → AreBytes xs → undone ms ≡ true → xor_with (xor_with xs ms) ms ≡ xs
unfolding xor_with undone
xor_with_twice [] ms b u = refl
xor_with_twice (x ∷ xs) [] b u = refl
xor_with_twice (x ∷ xs) (m ∷ ms) b u =
    let table = and_parts _ _ u in
    let one = all_below_sound 256 (λ y. bit_xor (bit_xor y m) m == y) x table.0 b.0 in
    rw ((==_iff _ x).0 one, xor_with_twice xs ms b.1 table.1)

-- The mask is an involution: a node that answers for `sid nid` signs with `nid`.
pub sid-sid : (nid : Nih) → AreBytes nid → sid (sid nid) ≡ nid
unfolding sid undone all_below
sid-sid nid b = xor_with_twice nid sid_mask b refl

unfoldable pub ping_query : Nih → Bytes
ping_query id =
    codes "d1:ad2:id20:" ++ (id ++ (codes "e1:q4:ping1:t1:" ++ (our_tok_pg ∷ codes "1:y1:qe")))

unfoldable pub find_node_query : Nih → Nih → Bytes
find_node_query id target =
    codes "d1:ad2:id20:"
    ++ (id
        ++ (codes "6:target20:"
            ++ (target ++ (codes "e1:q9:find_node1:t1:" ++ (our_tok_fn ∷ codes "1:y1:qe")))))

-- The last byte is the one that the code adds to the dictionary.
unfoldable pub get_peers_query : Nih → Nih → ℕ → Bytes
get_peers_query id ih tok =
    codes "d1:ad2:id20:"
    ++ (id
        ++ (codes "9:info_hash20:"
            ++ (ih
                ++ (codes "e1:q9:get_peers1:t3:"
                    ++ (u16_bytes tok ++ (our_tok_gp ∷ (codes "1:y1:qe" ++ 0 ∷ [])))))))

-- The text is a get_peers query for the info hash, to any node and with any tok.
abbrev pub AsksFor : Nih → Bytes → Type 0
AsksFor ih text = (nid : Nih) × (tok : ℕ) × (text ≡ get_peers_query (sid nid) ih tok)

unfoldable pub reply_start : Nih → Bytes
reply_start id = codes "d1:y1:r1:rd2:id20:" ++ id

unfoldable pub nodes_field : PNode → Bytes
nodes_field p = codes "5:nodes26:" ++ pnode_raw p

unfoldable pub token_field : Bytes
token_field = codes "5:token1:" ++ our_token ∷ []

unfoldable pub reply_end : Bytes → Bytes
reply_end tok = codes "e" ++ (tok_prefix (length tok) ++ (tok ++ codes "e"))

unfoldable pub ping_reply : Nih → Bytes → Bytes
ping_reply id tok = reply_start id ++ reply_end tok

unfoldable pub find_node_reply : Nih → PNode → Bytes → Bytes
find_node_reply id p tok = (reply_start id ++ nodes_field p) ++ reply_end tok

unfoldable pub get_peers_reply : Nih → PNode → Bytes → Bytes
get_peers_reply id p tok = ((reply_start id ++ nodes_field p) ++ token_field) ++ reply_end tok
