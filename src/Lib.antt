-- ===== src/Lib.antt =====
-- fastvid: the client's and the server's shared code of a video streaming system, modelled from the
-- sources in sclient/src and sserver/src.
--
-- Parts. A client receives video frames over TCP, UDP or RTP. The messages between client and server
-- have the layout of common/protocol; RTP packets are written and read by common/net; the threads of
-- the client hand frames on through common/concurrency; the jitter of the network is collected by
-- common/metrics and drives the buffering mode in modules/network; everything is logged by
-- common/log. The socket code of the client is declared but has no bodies in the repository.
--
-- Files, with the sources that they model (function names as in the source, in snake case):
--   Common            shared: tests on numbers, lists, slices, words, signed integers.
--   Float             the interface for double: an order, arithmetic, casts, printing.
--   Text              texts as lists of character codes, and std::to_string.
--   Rtp               sclient/src/common/net/RtpProtocol.h. Rtp.Bytes has the big-endian reads and
--                     writes, Rtp.Header the writer, Rtp.Parse the parser, Rtp.Latency the extension
--                     with the two time stamps. Rtp.Parse.Grammar describes the packets by their
--                     bytes, apart from the parser. A buffer is a list of bytes; a read past its end is
--                     `none`, so that it can be proved not to happen.
--   Queue             sclient/src/common/concurrency/BoundedQueue.h. A member function is one step,
--                     as it holds the mutex; Queue.Threads puts the steps of any number of threads
--                     together, with the consumers that wait and those that are woken counted;
--                     Queue.Serial reads such a run as the calls one after the other, Queue.Loss
--                     counts what is dropped, and Queue.Shutdown is about the end of it.
--   Protocol          sclient/src/common/protocol/Protocol.h, records and the magic.
--   Internal          sclient/src/modules/network/StreamClientInternal.h.
--   Stats             sclient/src/common/metrics/LatencyStats.h. The mutable summary is threaded
--                     through the const member functions that refresh it.
--   Jitter            sclient/src/modules/network/AdaptiveJitterBuffer.h. Jitter.Transition is
--                     EvaluateStateTransition, Jitter.Rating the quality and its limits, and
--                     Jitter.Buffer all other operations, which use Stats for the window of samples;
--                     what is logged is a result. Jitter.Buffer.Figures, Driven, Assessed, Startup,
--                     Restart, Worse, Rough and Ramp put the window, the machine and the quality
--                     together; Jitter.Buffer.Delay is about the target delay.
--   Log               sclient/src/common/log/Logger.cpp. Log.Paths has the functions on paths,
--                     Log.Entry those that log at a level; Log.Output and Log.History are about
--                     what is written, by one call and over a whole run of the program.
--   ServerLog         sserver/src/common/log/Logger.cpp. ServerLog.Functions has its functions;
--                     ServerLog cuts a call of Log where another thread may come in between;
--                     ServerLog.Serial is about the runs of such steps, ServerLog.Written and
--                     ServerLog.Requested about what they write, ServerLog.Finished about their end.
--   Client            sclient/src/modules/network/StreamClient.h and StreamClient.cpp: the members
--                     and the constructor; Client.Lifetime has the destructor, the snapshot guard
--                     and Connect; Client.Types is sclient/src/modules/network/types.
--
-- Bounds and fuel. Machine words wrap where the source lets them (u8, u16, u64). The loop in
-- Logger::Log has as fuel the message's length and one more; each turn goes past one character, and
-- the lines are proved to be the whole message. The digits of std::to_string have the number itself
-- and one as fuel. A consumer's loop over WaitPop has a number of rounds as fuel, and one round
-- more than there are values is enough. The loop of XorInto is by recursion on the bytes that are left.
--
-- Parameters. Arithmetic on doubles, the clock, strerror, readlink, mkdir and opening a file are not
-- in the sources: they are arguments, with the laws that a theorem needs named (IsOrdered,
-- IsScaling, IsRounding, IsInterpolating and IsGraded in Float). So are the functions without a body
-- that the client's destructor and guard call. The counters of type int are natural numbers, since
-- they start at 0, are only counted up, and are reset at 10 and at 20. Products of ints are exact,
-- as they are in C where they do not overflow.
--
-- Not modelled: sockets, the fairness of the threads' scheduling, data races, the text of an error
-- from the C library, the layout of Protocol.h's structs in memory, as no code in the repository writes
-- or reads them as bytes, and the member functions of StreamClient that have no body there.
-- What is left besides are comments, includes and class declarations: nothing more of the program has
-- code that a model could follow.
pub mod Common
pub mod Rtp
pub mod Queue
pub mod Protocol
pub mod Internal
pub mod Float
pub mod Stats
pub mod Text
pub mod Jitter
pub mod Client
pub mod Log
pub mod ServerLog
