-- ===== src/Lib.antt =====
-- A model of the NDN multi-party signature library: several signers sign one Data packet with BLS
-- keys, an initiator collects and adds up their signatures, and a verifier checks the sum against a
-- schema that says which signers are wanted.
--
-- Parts. A schema (include/ndnmps/schema.hpp, src/schema.cpp) holds wildcard names for required and
-- optional signers; the container holds schemas, trusted keys and the signers found unavailable.
-- The initiator (src/initiator.cpp) asks the container for signers, requests a piece from each,
-- adds the pieces up and puts the signer list (src/mps-signer-list.cpp) into an info packet. The
-- verifier (src/verifier.cpp) reads this list, asks its container whether the list passes, adds up
-- the keys and checks the signature by src/bls-helpers.cpp.
--
-- Between an initiator and a signer (src/signer.cpp) a request goes as follows. The initiator sends
-- a signed Interest with the name of its parameter packet and an ECDH public key; the signer
-- answers with an ack that holds its own public key, a salt, and, encrypted, the name of the
-- result. Both derive an AES key and an HMAC key (src/crypto-helpers.cpp). The initiator then
-- publishes the packet to be signed, encrypted; the signer fetches it, checks its HMAC,
-- asks its callback, and signs; and the initiator fetches the encrypted result until it holds the
-- signature or an error. Each player has a key chain, with a TPM that holds the HMAC keys: signing
-- puts the key there, and verifying looks it up by name.
--
-- Files. Prelude holds the shared names, lists, results and texts; Ordered the sets, maps and
-- sorted vectors of the standard library, over an order. Ndn, Tlv, Packets and Messages are
-- interfaces to ndn-cxx and the BLS library, OpenSsl one to OpenSSL: records of the operations that
-- the code calls and of laws from their documentation; Examples has instances of all of them.
-- Schema/Pattern is WildCardName (match, of_string for the constructor), Schema/Policy is
-- MultipartySchema (match_packet, pass_schema), Schema/Section its readers and toString over
-- property trees, Schema/Container is MultipartySchemaContainer (container_pass_schema for
-- passSchema, get_available_signers, get_matched_keys), Schema/Replacement has replace_signer and
-- find_new_key (findANewKeyForPattern), Schema/AggregateKey aggregate_key. SignerList is
-- MpsSignerList, Bls the overloads of ndnGenBLSSignature, ndnBLSSign, ndnBLSVerify and the
-- aggregations, Verifier is BLSVerifier, Initiator the start of a signature (start for
-- multiPartySign), the handler of a piece (on_signature), the end (finish) and onUnavailableSigner,
-- Initiator/Rpc is performRPC with its handlers (perform_rpc, on_ack_data, on_result_data) and what
-- they call, and Initiator/Events the answers and losses of several signers as a relation. Crypto
-- is src/crypto-helpers.cpp, Protocol has the numbers of include/ndnmps/common.hpp, and Signer is
-- BLSSigner's handling of a request (on_sign_request and the handlers that it sets up); Signer/New
-- is its constructor and Bls/Certificate genSelfSignedCertificate. Exchange puts signer and
-- initiator together. The child modules hold the lemmas.
--
-- State is passed on explicitly: `replace_signer` returns the container with the new unavailable
-- signer, `on_signature` the state with the new piece, and the handlers of Signer and Initiator/Rpc
-- the state of the request, with the TPM of the player's key chain where the handler reads or changes
-- it; the steps of the signer's state are a relation in Signer/Reveals.
-- Randomness is an argument of the operation that draws it. Exceptions are `throws` of a Result;
-- reads past the end of a vector are `throws out_of_bounds`.
--
-- The one loop on fuel reads the components of a wildcard name from a text. Its fuel is the length
-- of the text and one; each round takes a slash off, so that this is enough.
--
-- Not modelled: printing, logging and timing; freshness periods and lifetimes of packets; the face,
-- which registers prefixes and calls the handlers, and the scheduler; loadBigU32 of
-- src/crypto-helpers.cpp, which nothing calls; temp/, which the build does
-- not compile.
mod Prelude
pub mod Ordered
pub mod Ndn
pub mod Schema
pub mod Tlv
pub mod Packets
pub mod OpenSsl
pub mod Crypto
pub mod Bls
pub mod SignerList
pub mod Verifier
pub mod Initiator
pub mod Messages
pub mod Protocol
pub mod Signer
pub mod Exchange
mod Examples
