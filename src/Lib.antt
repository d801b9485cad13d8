-- ===== src/Lib.antt =====
-- The Ledger Syscoin application: wallet policies and their analysis.
--
-- The application signs transactions for wallets whose scripts are described by a wallet policy, a
-- descriptor template that may hold miniscript. parse_script (src/common/wallet.c) parses the text
-- into a tree and computes the miniscript type of every node; compute_miniscript_policy_ext_info
-- (same file) measures the script of a node; is_policy_sane (src/handler/lib/policy.c) refuses a
-- policy for which these measures are out of bounds.
--
-- Files:
--   Base                  the names that all modules share: Booleans, options, lists, integers
--   Policy                the syntax tree (src/common/wallet.h)
--   Policy/Types          the miniscript types, from the cases of parse_script
--   Policy/ExtInfo        compute_miniscript_policy_ext_info, one function per case, with
--                         compute_thresh_ops and compute_thresh_stacksize
--   Satisfaction          an independent description of the witnesses of a script, and what the
--                         analysis says about them
--   Script                the generation of scripts (get_wallet_internal_script_hash in
--                         src/handler/lib/policy.c, src/common/bitvector.h)
--   Script/Emit           the same scripts by recursion on the policy, without the stack
--   Script/Counter        the policies whose nodes the uint8_t step of a node can count
--   Script/Simulation     that the rounds of the loop emit them
--   Script/Size           that their sizes are those of the analysis
--   Address               the output scripts (get_wallet_script in src/handler/lib/policy.c) with the
--                         taproot functions of src/crypto.c, and get_script_type of
--                         src/common/script.c
--   Wire                  integers in both byte orders and varints (src/common/read.c, write.c, varint.c)
--   Merkle                the directions in a Merkle tree (src/common/merkle.h, merkle.c)
--   Client                the exchange with the client (src/boilerplate/dispatcher.c) in
--                         src/handler/lib: hashes, preimages, elements and indices of Merkle leaves
--                         (get_merkle_leaf_hash.c, get_merkle_preimage.c,
--                         get_merkle_leaf_element.c, get_merkle_leaf_index.c), the order of the
--                         elements of a tree (check_merkle_tree_sorted.c), other preimages
--                         (get_preimage.c, stream_preimage.c) and merkleized maps
--                         (get_merkleized_map.c and others)
--   Parser                the streaming parser on two buffers (src/common/parser.c)
--   Parser/Resumable      steps that an end of the data may interrupt
--   Rawtx                 the parser of raw transactions (src/handler/lib/psbt_parse_rawtx.c)
--   Sanity                the miniscript part of is_policy_sane and its loops over the key
--                         placeholders, and what they guarantee
--
-- A failing return (WITH_ERROR(-1, …), or a negative result) is `none`. An unsigned integer is a
-- natural number with its wrap-around written out; an int16_t that holds -1 for "invalid" is an
-- integer, and sumcheck cuts sums off at INT16_MAX as in the source. The functions on policies recurse on
-- the tree, so that no fuel is needed. ceil_lg has fuel 32, and the loop over the directions the size
-- of the tree; the results say for which sizes this is enough.
--
-- The analysis of thresh(k,…) reads sats[k], which its loop writes only for k up to the number of
-- scripts; what the array holds elsewhere is the parameter `leftover`. The arrays are local, as in a
-- build without USE_CXRAM_SECTION. The satisfactions described are the canonical ones of miniscript:
-- no signature is malleated, and a hash has no dissatisfaction.
--
-- The client is not trusted: its replies are any list of byte strings, each the data of a
-- well-formed APDU that continues the command, and an exchange recurses on this list. The data of an
-- APDU overwrite those of the one before in the same memory. The hash function of the device is a
-- parameter.
--
-- The keys of a policy and their hashes (get_derived_pubkey, crypto_hash160) are arguments of the
-- generation of scripts, and so is the byte that the memset of process_multi_a_sortedmulti_a_node
-- leaves uninitialised. Its loop takes any fuel; the results say that it ends if no thresh has 256
-- scripts or more: the uint8_t step of its node would go from 255 to 0, and the loop would start
-- anew. A descriptor template of 512 characters has no room for as many. The hash functions, the
-- arithmetic of big numbers and the operations on the curve are arguments of get_wallet_script.
--
-- The client delivers a raw transaction in chunks, which the stream lists for the parser. The loops of
-- the parser run as often as the counters say.
--
-- Not modelled: the text parser, key expressions, addresses, the preprocessing and signing of PSBTs,
-- and the transport. The screens and the operating system of the device are outside of the
-- development.
pub mod Base
pub mod Policy
pub mod Script
pub mod Address
pub mod Satisfaction
pub mod Sanity
pub mod Wire
pub mod Merkle
pub mod Client
pub mod Parser
pub mod Rawtx
