-- ===== src/Lib.antt =====
-- A model of base/, the library of csutil that its servers and stores are built on: the encoders and
-- decoders, the elevator scheduler, the trie, the receive buffer of a connection, the bit array, the
-- Bloom filter with its hash function, load control, run-length encoding, a timer wheel,
-- the HyperLogLog sketch, binary search, big numbers, the consistent hash, UTF-8 validation and the
-- top-n heap; and of the LRU cache of store/.
--
-- base/status.h gives every function its result code: Common.Status has the codes that the modelled
-- functions return and a result that is an output, a code, or `undefined` where C++ defines nothing
-- (an index or a shift out of range, a division by 0) or an `assert` fails. An output argument is part
-- of the result; the tests for a NULL pointer have no counterpart. A std::string is the list of its
-- bytes, numbers below 256; strings are shorter than 2 ^ 31 where the source counts them with an int.
-- uint32_t and uint64_t are natural numbers with the wrap-around written out. Common has Boolean
-- tests, lists measured by native numbers, and masks and shifts as arithmetic (Common.Bits,
-- Common.Digits).
--
-- base/coding.cc is Coding. Coding.Fixed has EncodeFixed32 to DecodeFixed64, as on a little-endian
-- machine, and EncodeToMsg and DecodeFromMsg of base/msg.cc, which put a fixed length in front of the
-- data. Coding.Var has EncodeVar32 to DecodeVar64: the encoder's loop runs on the slots of its buffer,
-- 5 or 10, and a write past it is undefined.
-- Coding.ZigZag has the zig-zag encodings, Coding.Url the percent encoding with ToHex, ToBin,
-- BinToAscii and AsciiToBin, Coding.Base16 the hexadecimal strings with GetReadableStr, GetBinStr and
-- GetBinChar of base/util.cc. Coding.Base64 has Base64Encode and Base64Decode with the functions for
-- one unit; Coding.Chunks has the loop over units that the Base64 and Base32 functions share, with the
-- offset of a unit, which wraps. Coding.Base32 has the two Base32 encodings: Units has the functions for one unit,
-- Alphabets the standard and the GeoHash alphabet, which share the interface IsAlphabet as the source
-- shares Base32EncodeInternal and Base32DecodeInternal between two function pointers.
-- Coding.Memcomparable has the encoding that memcmp orders, Coding.Find the searches BruteForce and RK
-- and GetHighlighting. The loops go over what is left of the string, or over the number of rounds that
-- the source computes beforehand. Coding.Split has SplitUTF8, whose rounds take a byte at least; isalnum of a
-- byte from 128 on, a negative char, is undefined, as in UrlEncode. KMP and
-- BM are not modelled.
--
-- base/elevator.cc is Elevator: Rides has the ride, FCFS, the sort and the split at the current floor,
-- Seek SSTF, Sweep SCAN and LOOK, Circular C-SCAN and C-LOOK; the loops from the back of a vector cut its
-- size to an int32_t. Elevator.Ways has the distances, Elevator.Tours the orders. std::sort is an insertion sort, which on
-- numbers cannot be told from any other.
--
-- base/trie.cc is Trie, a tree of items, since no item is shared; Trie.Counts follows the two
-- frequencies along the paths, and Trie.Contents sees the trie as a list of words with repetitions.
-- CheckIsLowerCaseLetter is that of base/util.cc. ToString and Destroy are not modelled.
--
-- base/mutable_buffer.cc is MutableBuffer over a block of bytes; malloc is a parameter, which gives a
-- block of the size asked for or none. MutableBuffer.Memory has memcpy and memmove with their bounds,
-- MutableBuffer.Contents sees the buffer as a queue of bytes.
--
-- base/bit_arr.cc is BitArr, base/bloom_filter.cc is BloomFilter, and Murmur32 of base/hash.cc, which
-- the filter calls, is Hash. `new` never gives NULL. Hash calls DecodeFixed32 of Coding.Fixed.
-- The loops of Put and CheckExist run on hash_num rounds; a position outside the bytes is undefined.
--
-- store/cache/lru_cache/src/lru_cache.cc is LruCache: the nodes live in a memory of addresses, numbers
-- of which 0 is NULL and 1 the node inside the object, and `new` gives one that was never used. Reading
-- or writing a node that is not allocated is undefined, as is freeing the node inside the object.
-- LruCache.Map has the std::map, as pairs in no order; LruCache.Ring and LruCache.Links follow the two
-- links of every node round the ring, and LruCache.Contents sees the cache as a list of entries. The
-- loop of RemoveExpiredNodes and that of the destructor have as many rounds as the map has keys, which
-- is the length of the ring; a loop that needs more is undefined. The mutex is held through every call,
-- so that the calls do not interleave, and time(NULL) is an argument.
--
-- base/load_ctrl.cc is LoadCtrl. Its ints are words of 32 bits; a product of two ints that overflows
-- and a grid outside of the array are undefined, and so is `delete` of an array from `new[]`. What
-- gettimeofday gives is an argument. LoadCtrl.Window sees the ring of grids as a list, the current grid
-- first; move_num of UpdateGrids counts the rounds of its loop.
--
-- base/algo.h is HyperLogLog, the sketch with its sorted vector (HyperLogLog.Sparse, HyperLogLog.Merge)
-- and its array (HyperLogLog.Dense); HyperLogLog.Rank has RHO, HyperLogLog.Registers sees the sketch as
-- a function from register to value.
-- What `reserve` leaves as the capacity of a vector is a parameter, of which the theorems ask that it is
-- enough; __builtin_clzll counts binary digits. Estimate works on floating-point numbers and Add on
-- std::hash: they are not modelled.
--
-- RunLengthEncode and RunLengthDecode of base/algo.cc are RunLength, and its TimerWheel is TimerWheel,
-- where a task is any value and does not add timers itself. The four binary searches of
-- base/search.h are Search, over a comparison that is a parameter; their loops have as many rounds as
-- the array has elements, each of which halves the range.
--
-- Strtok, GetNumOfElements and GetElementOfIndex of base/util.cc are Words; the character is not 0, and
-- their loops have a round for every word.
--
-- base/int.cc is BigNum, with Trim of base/util.cc: the additions, subtractions and multiplications of
-- decimal strings, and GCD and LCM. Their loops take the digits from the last one on, and so go over the
-- reversed string here. BigNum.Digits has the numbers that digits stand for, BigNum.Add, BigNum.Sub and
-- BigNum.Multiply those of the internal functions, BigNum.Parse CheckAndGetIfIsAllNum, BigNum.Signed the
-- choice by the signs; Common.Int has the integers. Euclid's loop has as many rounds as its second
-- number, which every round makes smaller.
--
-- base/consistent_hash.cc is ConsistentHash. A std::map is the list of its entries in the order of the
-- keys. ConsistentHash.Ring has the entries of the ring and lower_bound, ConsistentHash.Points which node
-- each point keeps, ConsistentHash.Nodes the map of the nodes, ConsistentHash.Answers what Get answers
-- before and after Put and Del. The hash is Murmur32 of Hash, of which nothing is used.
--
-- base/utf8.cc is Utf8: Utf8.Masks has the masks, Utf8.Sequences the encoding of one codepoint, Utf8.Text
-- that of a sequence. base/topn_heap.h is TopnHeap; the standard heap functions are known by what they
-- promise: the heap is the list that std::sort_heap makes of it, and HeapCompare is a strict order.
--
-- Not modelled: the rest of base/ (parsers, the sort, the skip list), the tree cache and the stores
-- under store/, the containers of mystl/, sockets and protocols (sock/, cs/, http/, ftp/, proto/), the
-- applications (agent/, demo/, strategy/, data_process/), whatever works on floating-point numbers,
-- files, threads or OpenSSL, and third_party/, which holds other projects' libraries.
pub mod Common
pub mod Coding
pub mod Elevator
pub mod Trie
pub mod MutableBuffer
pub mod BitArr
pub mod Hash
pub mod BloomFilter
pub mod LruCache
pub mod LoadCtrl
pub mod RunLength
pub mod Search
pub mod HyperLogLog
pub mod TimerWheel
pub mod Trim
pub mod Words
pub mod BigNum
pub mod ConsistentHash
pub mod Utf8
pub mod TopnHeap
