-- ===== src/Lib.antt =====
-- Private data objects: contracts run in enclaves, keep their state as encrypted blocks in an
-- untrusted store, and record the hash of every new state in a ledger.
--
-- The parts, and the files that model them:
--
-- - Crypto/Skenc: common/crypto/skenc.cpp, authenticated encryption. The calls of OpenSSL are fields
--   of `Platform` (Platform), with what their documentation promises in `IsCryptoLawful`.
-- - HexString: common/hex_string.cpp, hexadecimal strings.
-- - State: common/state, the key-value store of a contract's state. State/Offset is
--   block_offset.cpp and the offset arithmetic of data_node.cpp, State/DataNode is data_node.cpp,
--   State/Sebio is sebio.cpp, which names a block by its hash, and State/FreeSpace is
--   free_space_collector.cpp. State/StateNode is StateUtils.cpp, the root block, and
--   block_warehouse.cpp, the list of the identities of all blocks. State/Cache is cache.cpp; an entry
--   of the cache has its block itself, and the free slots are counted. State/DataNodeIo is
--   data_node_io.cpp, State/Trie is trie.cpp, and State/StateKv is state_kv.cpp.
--   State/KeyValue is basic_kv.h, the interface of the store, and interpreter_kv.cpp, which puts a byte
--   before the keys of the enclave and another before those of a contract. `state_kv` of State/StateKv
--   is the store as an instance of the interface. The interface has no laws: the store is no map where
--   common/state/trie.cpp:156 writes past an empty value. A function that may throw
--   returns an `Outcome` (Outcome); `undefined` stands where the C++ would have undefined behaviour.
--   The functions keep the names of the methods, and a record holds the members of the class.
-- - Ledger: ledgers/ccf/transaction_processor, the handlers of pdo_tp.cpp, each a function from a
--   request and the state of the node to a `Reply` (Ledger/Reply) with the new state. Ledger/Records
--   holds the structures of the three registries, Ledger/Tables the replicated tables with their
--   current and their globally committed content, Ledger/Signatures is verify_signatures.cpp,
--   Ledger/Attestation, Ledger/Enclaves, Ledger/Contracts, Ledger/Updates, Ledger/Signing and
--   Ledger/Queries are the handlers. What they call of CCF, of the JSON library and of SGX is the
--   record `Host` (Ledger/Host). Ledger/Steps has the runs of a node as a step relation: requests in
--   the order of their execution, the commit of all that is written so far, the loss of what is not
--   committed, and a restart, which empties the members that a node keeps outside the tables.
-- - Enclave: eservice/lib/libpdo_enclave, the contract enclave. Enclave/Data is enclave_data.cpp,
--   Enclave/Secrets is contract_secrets.cpp with ecall_VerifySecrets, Enclave/Message, Enclave/Code,
--   Enclave/ContractState, Enclave/Request and Enclave/Response are contract_message.cpp,
--   contract_code.cpp, contract_state.cpp, contract_request.cpp and contract_response.cpp,
--   Enclave/Process is `process_request` of both kinds of request, and Enclave/Entry is
--   contract_enclave.cpp. Enclave/Worker is contract_worker.cpp, the interpreter that threads share, as
--   turns in any order. The keys are the record `Keys` (Crypto/Keys), the libraries and SGX are
--   `EnclaveHost` (Enclave/Host), the interpreter is `Interpreter` and the store is `BasicKv`. Where
--   the code draws random bytes, a function takes a draw.
-- - Provisioning: pservice/lib/libpdo_enclave/secret_enclave.cpp, the enclave of a provisioning
--   service. Provisioning/Info is the check of a contract enclave, Provisioning/Secret are the secrets.
-- - Protocol has what these parts promise each other: Protocol/Addition that the ledger accepts an
--   enclave which verified the secrets, Protocol/Initialization and Protocol/Update that
--   it accepts the first state and the updates that an enclave answers with.
-- - CString has the strings of C and C++ as lists of bytes.
-- - Examples applies the theorems at concrete inputs, to a small host and small libraries.
--
-- How the parts meet: a contract's state is a tree of blocks, whose hashes are the identities that
-- State/Sebio checks; the hash of the root is what the ledger records as `current_state_hash`. A
-- provisioning service hands out a secret for a contract; the contract enclave combines the secrets to
-- the key of the state and signs for the ledger that it did; then it runs requests on the state and
-- signs each new state, with the previous one, for the ledger.
--
-- Numbers: an `unsigned int` is a native number, with `% 2^32` where an addition or a subtraction
-- may wrap. The theorems on free space take all blocks together to be below 4 GB. Loops are structural
-- recursion on the list that they walk; the loop that reads the collection back counts the items that
-- are left. The loops of the cache take the number of entries as fuel, since each of their rounds
-- removes one. The loops across blocks take two rounds more than there are bytes. The way down in the
-- trie takes a number of rounds from its caller, since a damaged trie may have no end.
--
-- Not modelled: JSON, Base64 and SGX (parameters), logging, the marshalling between an enclave and
-- its host, the tests for null pointers of the calls into an enclave, the WebAssembly runtime, and the
-- signup of an enclave.
pub mod Prelude
pub mod Outcome
pub mod Platform
pub mod Crypto
pub mod State
pub mod Ledger
pub mod CString
pub mod Enclave
pub mod Examples
pub mod HexString
pub mod Protocol
pub mod Provisioning
