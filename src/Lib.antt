-- ===== src/Lib.antt =====
-- Hwfa: a verification of the client side of the messenger.
--
-- The program has two halves in TypeScript. packages/client is the network core: HwfaClient keeps
-- the relay socket, the sessions and the correlation of messages with their receipts.
-- apps/mobile/src is the app: its stores take the texts that the client decrypts, tell apart the
-- five kinds of body that ride the text path, and drive calls, groups, typing signals, statuses and
-- attachments. packages/models has the types that both share.
--
-- Which file models which part:
--   Discovery         packages/client/src/discovery.ts: the tokens, what is sent and what is read.
--                     Transport has request, refresh, ensureAccess, expiringSoon; Api the methods
--                     from onboard to deleteAccount; Loop request and refresh as they call each
--                     other; Shared the requests that overlap and share one refresh.
--   Sha256            packages/client/src/sha256.ts.
--   SafetyNumber      packages/client/src/safety-number.ts.
--   Utf8, Base64Url   utf8Encode, utf8Decode, base64UrlEncode, base64UrlDecode of
--                     packages/client/src/client.ts, and decodeBase64Url of discovery.ts.
--   Models            packages/models/src/envelope.ts, scam.ts: envelopes, relay messages, verdicts.
--   Wire, Wire/Bodies call/wire.ts, group/wire.ts, typing/wire.ts, store/statuses.ts in
--                     apps/mobile/src, and packages/client/src/media/media.ts: the bodies.
--   Client            packages/client/src/client.ts: the state of HwfaClient.
--   Client/Connection connectRelay, handleSocketClosed, scheduleReconnect, close, resume, requestOtp,
--                     confirmOtp, onboard, linkWithCode, deleteAccount, registerPushToken.
--   Client/Messages   sendText, devicesForPeer, ensureSession, handleDeliver, handleAck,
--                     handleStatus, sendReadReceipt, and the listener of relay.ts.
--   Relay             packages/client/src/relay.ts: RelayConnection, its socket and its handlers.
--   Client/Linking    createLinkCode and linkWithCode; Client/Discover: hashPhone, findContact,
--                     discoverContacts, maintainPreKeys.
--   Client/Events     what a client sees, as events, and the runs of a client.
--   Conversations     apps/mobile/src/store/conversations.ts: the state and make, ensure, rebuild,
--                     emit. Receive has receive; Outbound has send, sendGroup, createGroup,
--                     sendTyping, sendMedia; Attachments has loadMedia, loadPendingMedia,
--                     downloadMedia, saveMedia; Edit has patch, applyStatus, markRead, toggleStar,
--                     dismissScamWarning, getStarred, setPeerIdentity, ensurePeer, reset; Persist
--                     has schedulePersist and hydrate.
--   Call              apps/mobile/src/call/store.ts: the state of a call and the call log.
--   Call/Manager      apps/mobile/src/call/manager.ts: the state, signal and finish; Call/Tasks has
--                     start, accept, decline, hangup, drainIce, attachLocalMedia; Call/Events has
--                     onSignal, the toggles and the listeners of the connection.
--   Statuses          apps/mobile/src/store/statuses.ts.
--   Typing            apps/mobile/src/store/typing.ts.
--   Scam              packages/client/src/scam/detector.ts; Scam/Reports: scam/reports.ts.
--   SignalStores      packages/crypto/src/stores.ts: the stores of libsignal's records.
--   KeyPool           packages/crypto/src/identity.ts: mintOneTimePreKeys and the one-time keys of
--                     generateRegistration; packages/client/src/node/provider.ts.
--   Registration      packages/crypto/src/identity.ts: generateRegistration with all its keys, and
--                     toPreKeyBundle.
--   Sessions          packages/crypto/src/session.ts, and encrypt and decrypt of node/provider.ts.
--   App               apps/mobile/App.tsx: the launch, the screens and their callbacks;
--                     apps/mobile/src/client/hwfaClient.ts: tryResume, saveAccount. App/Push has
--                     apps/mobile/src/push/setup.ts: initPush, and the effect of App that owns it.
--   Screens/Composer  apps/mobile/src/screens/ChatScreen.tsx: stopTyping, handleDraftChange,
--                     handleSend; and the guard of sendTyping of the conversation store.
--   Screens/Contacts  ContactsScreen.tsx: handleScan, handleFind; and
--                     apps/mobile/src/contacts/deviceContacts.ts: readDeviceContacts.
--   Screens/Group     NewGroupScreen.tsx; Screens/Format: formatSize of ChatScreen.tsx, useCallTimer
--                     of CallScreen.tsx, convTitle, convPreview and hasScam of HomeScreen.tsx, and
--                     apps/mobile/src/util/time.ts.
--   Contacts          apps/mobile/src/contacts/normalize.ts.
--   Media             packages/client/src/media/media.ts: encryptMedia and decryptMedia.
--   Media/Service     packages/client/src/media/service.ts: upload and download.
--   Media/Base64, Media/Bridge   apps/mobile/src/media/rnMediaCipher.ts: the base64 that crosses to
--                     the native module, and the cipher over it; mediaService.ts: uploadImage,
--                     downloadImage and toDataUri.
--   Broadcast         apps/mobile/src/status/post.ts: postStatus.
--   Common            helpers: Boolean tests, lists, a Map as an association list in the order of
--                     insertion, stable sorting, string prefixes, digits, bits.
-- The other files hold proofs and, named Tests, concrete inputs.
--
-- How code becomes definitions. A field name in camelCase is the same name in snake_case, and a
-- method is a function from a state to a state. An async method is cut at each await: up to the
-- await it leaves a task or an effect, and an event brings the answer, so any interleaving of
-- methods, timers and messages is a list of events, and an answer may also come late. A method that throws leaves the state as it is
-- at that point. The clock, fresh ids and our account id are arguments. Sockets and connections
-- are numbers.
--
-- Loops are recursions on the list that the code iterates over, or on the count that it runs to.
-- Three definitions run on fuel. request_loop of Discovery/Loop has request and refresh call each
-- other: three calls are enough, which is proved there. decode_loop of Utf8 takes the number of
-- bytes, of which each pass consumes one. pad_loop of Base64Url adds at most three characters. The
-- digits of a number are computed by recursion on a bound which is that number plus one.
--
-- Parameters that stand for other code: JSON (the records Json and Codecs of Wire, with RoundTrips
-- for a payload that reads back as written; Codec of Client/Linking), atob, btoa and
-- encodeURIComponent, the discovery server (a function from the requests so far to its answer, or
-- events), the media service with its storage, the key pairs that libsignal draws, the answers of
-- Discovery and the crypto provider to HwfaClient (the record Services of
-- Client/Messages, and events), WebRTC, the permission dialog, the relay, the search for the scam
-- patterns in a text, the comparison of two identity keys, for attachments the cipher with its
-- digest and base64, and in the app what the native module for media answers, what libsignal does
-- with keys and messages (Primitives of Registration, Libsignal of Sessions), the account that the native store loads, the address book and its permission, the
-- sort of contacts by name, and the local date of a time.
--
-- Not modelled: the WebCrypto cipher, libsignal itself, what the screens draw, native modules, and
-- the Go services in backend. Listeners of the stores are left out, as they only redraw. The
-- connections of a call that the manager no longer holds are not kept, and the candidates of one
-- drainIce are offered in one go. SHA-256 gives no bytes where the code throws, from 2 ^ 31 - 72
-- bytes on. Nothing else happens while sendText waits for its services, or while a method of Discovery/Api waits for its own requests.
-- maintainPreKeys changes nothing of the client, so the events of Client/Events do not have it.
pub mod Common
pub mod Models
pub mod Utf8
pub mod Base64Url
pub mod Sha256
pub mod SafetyNumber
pub mod Wire
pub mod Call
pub mod Statuses
pub mod Typing
pub mod Conversations
pub mod Discovery
pub mod Client
pub mod Relay
pub mod Broadcast
pub mod SignalStores
pub mod KeyPool
pub mod Registration
pub mod Sessions
pub mod Scam
pub mod Contacts
pub mod Media
pub mod Screens
pub mod App
