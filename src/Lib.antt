-- ===== src/Lib.antt =====
-- A model of parts of libcheloniajs, the client of the Chelonia protocol, with its correctness.
--
-- Reingest: src/reingestTracker.ts. Per contract, the tracker keeps the hashes of messages that
-- arrived before their turn, at most 20 of them. Its module-level map is the state that each
-- function takes and returns; an error is an answer beside the state. Reingest/Ordering is its
-- client in src/internals.ts, `checkMessageOrdering`: it reads the latest height of the contract,
-- notes a message from the future, arms a debounced re-sync, and clears what has been processed.
-- The debounce of the timers library is the log of its calls, and `debounce_fires` the moment at
-- which a timer ends. Heights are natural numbers: the source has checked that a height is a safe
-- integer, and a message whose height is none is one that failed this check.
--
-- Journal: src/journal.ts, the debugging journal of the states of a contract.
--   Journal/Json      the values of JavaScript that a state is made of, `cloneValue`, `===`;
--                     a number is the bit pattern of its double;
--   Journal/Pointer   JSON pointers and the dotted paths of redactions;
--   Journal/Index     array indices as text, `String(i)` and `Number(seg)` on it;
--   Journal/Diff      `defaultDiff`, `diffInto`;
--   Journal/Apply     `defaultApplyPatch`, `applyOne`; a write through a reference is the change
--                     put back into each container on the way;
--   Journal/Redact    `applyRedactions`, `walkAndRedact`;
--   Journal/Log       `appendAndTrim`, `indexOfLastSnapshot`, the loop of reconstruct;
--   Journal/Config    `resolveJournalConfig`, `normalizeProcessingError`;
--   Journal/Record    the selectors recordEvent, get, reconstruct and clear, over the contracts of
--                     the root state.
-- The journal's snapshots and patches hold redacted states; recordEvent calls the diff of the
-- configuration, appendAndTrim and the redactions, and reconstruct the configuration's applier.
-- `has` of the library turtledash is a parameter (Journal/Turtledash) of which the model relies on
-- its documented answer for objects. Functions of the configuration may throw.
--
-- Keys: src/utils.ts, the keys of a contract.
--   Keys              the key type, the look-ups by name, foreign key, permissions and purposes,
--                     and `validateKeyPermissions` with the inner signature of an action;
--   Keys/Changes      `validateKeyAddPermissions`, `validateKeyDelPermissions` and
--                     `validateKeyUpdatePermissions`; an exception is a value named for its message;
--   Keys/Rotation     `updateKey` and `deleteKeyHelper`.
-- Parameters: `unwrapMaybeEncryptedData` of the configuration, the selector haveSecretKey, the
-- substring test, and `union` of turtledash with its documented law. A ring level is a natural
-- number. The mark that an update sets on the metadata it keeps is left out.
--
-- PersistentActions: src/persistent-actions.ts, the class PersistentAction. Each stretch between two
-- awaits is a step, and a list of steps is one order of attempts, answers, timers and
-- cancellations. Any order is allowed, also those that the event loop never makes.
-- PersistentActions/Selectors has the selectors over the actions by their identifier, with the list
-- that is saved in the database, for a database key that is configured.
--
-- Kv: src/kv.ts, the slots of the key-value store and the mirror of their values.
--   Kv/Values, Shape  `assertJsonShape`, `parseSyncSlotValue`, `validateReducerOutput`,
--                     `normalizeKvConflictCurrentData`;
--   Kv/Guards         `assertSchemaGuards`, `assertParsedDefaultValue`, and the default of
--                     `_defineSlotInternal`;
--   Kv/Echo           `purgeExpiredEchoCIDs`, `recordEchoCID`: the CIDs of own writes, at most 128
--                     for a slot, each for five minutes;
--   Kv/Mirror         `ensureContractKv`, `setSlotStatus` of the production build, the counters,
--                     `safeOnUpdateGuarded`, `slotIsCurrent`;
--   Kv/Load           `chelonia/kv/_loadSlotNow`, in the two stretches before and behind its GET;
--   Kv/Remote         `chelonia/kv/_handleRemote`; an authoritative GET that it starts is its
--                     answer, with the markers that are demoted afterwards;
--   Kv/Read           `resolveActiveSlot`, `chelonia/kv/read`, `chelonia/kv/status`,
--                     `computeSeedValue`;
--   Kv/Write          `chelonia/kv/update` from what its reducer has returned last, over the answer
--                     of the write, to its end;
--   Kv/Steps          frames, loads and the ends of updates in any order;
--   Kv/Filters        `queueFilterFlush`, `flushDirtyFilters`, `scheduleFilterRetry`, as events of
--                     the runtime, with the filters that change, go with a contract's last slot or
--                     are cleaned up; an event that cannot happen changes nothing;
--   Kv/Reconcile      `chelonia/kv/_reconcileForSlot`;
--   Kv/Cleanup        `chelonia/kv/_cleanupContractRuntime`, and the slots under reconciliations,
--                     subscriptions and releases.
-- A frame's echo, a load and the flush read and write the same state, `KvState`, and reconciling a
-- slot that and the filters, `Runtime`. Events that are emitted and the callbacks are a log. A slot
-- is the same object as another where its number is. A schema's `parse` is a function that may
-- throw or answer a promise; a deep clone is the value itself; the clock is an argument, in whole
-- milliseconds; the error details that `normalizeError` makes, and the types of the contracts, are
-- parameters, as is `deepEqualJSONType` of turtledash. The rest of an update, the loop of
-- `chelonia/kv/set` over conflicts with it, clearing and syncing slots, the rest of defining them and
-- `chelonia/reset` are not modelled.
--
-- Db: src/db.ts, `chelonia/private/db/addEntry` and what it calls, over the store of the full
-- client as typed dictionaries: the keys' prefixes tell their kinds apart, and JSON is the value
-- that it prints. Of a message (src/SPMessage.ts) an entry has the fields of the head that are
-- read. Each of the three writes may fail. Db/Chain is the specification, a chain of entries that
-- only grows, and Db/Refinement and Db/Runs relate the store to it. Reading entries back is not
-- modelled.
--
-- Diff and apply recurse along the values and the path, the loops along their lists. Fuel is used
-- once, for the digits of a number (`digits_before` of Journal/Index), with more fuel than the
-- number, which is enough: reading the digits gives the number back.
--
-- Not modelled: logging, values such as Date, Map or class instances, and shortHashRedactor, a
-- call of a hash library. Of the other parts, cryptography, the network, files and the storage
-- itself are calls of libraries or I/O.
pub mod Base
pub mod Reingest
pub mod Journal
pub mod Keys
pub mod PersistentActions
pub mod Kv
pub mod Db
