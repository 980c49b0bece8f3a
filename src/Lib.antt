-- ===== src/Lib.antt =====
-- RDX: the block compressor, the tokenizer, the hash table, the digests and the text encoding.
--
-- The block compressor of src/rdxcompression codes a block of bytes, sorted by Burrows and Wheeler,
-- in four stages that hand symbols on: `CMTFStage` makes ranks of bytes (Compress/Mtf, of
-- rdx_comp_mtf.hpp and rdx_comp_mtf.cpp), `CRLE0EncStage` makes binary numerals of runs of rank 0
-- (Compress/Rle0, of rdx_comp_rle.cpp), `CSModelSet` makes intervals of symbols by adaptive counters
-- (Compress/Model, of rdx_comp_sm.cpp), and `CRangeEnc` makes bytes of intervals
-- (Compress/RangeCoder, of rdx_comp_rangecoder.cpp). Each stage is a record with the fields of the
-- class, and each method a function from the state to its output and the new state, named like the
-- method. `R5CompressBlock` of rdx_comp_cblock.cpp puts the stages together (Compress/Block), and its
-- theorem compares it with the stages one after the other over the whole block; the theorems on it ask
-- for less than 2 ^ 24 bytes, which the header can count and which keep the pending bytes of the range
-- coder below 2 ^ 32.
-- Arrays are lists, words are natural numbers with the wrap-around written out. The loop of
-- `CRangeEnc::Encode` takes fuel 4, since a range of at least 1 reaches 2 ^ 24 in three rounds.
--
-- The tokenizer of the compiler, src/rdxcompilerservices/rdxc_lexstate.cpp, is the class `TokenLexer`
-- (Lexer), its loops `LexSingle` (Lexer/Scan), its tables of reserved words (Lexer/Reserved), and
-- `Export` and `NextTokenNative` (Lexer/Token). A run ends with a value, in a read outside of the
-- array, which the code does not check, or out of fuel (Base/Run). The loops take one more than the
-- length of the array as fuel, since each round moves the offset. Lexer/Scan/Ignored says what white
-- space and comments are.
--
-- Characters and sizes of src/rdx/rdx_utility.hpp: Text/Utf8 has `rdxEncodeUTF8Char` and
-- `rdxDecodeUTF8Char` for a width of characters that is an argument, Text/Sizes the unsigned overflow
-- checks and `rdxPaddedSize`. Text/Count has `CountCharacters` of src/rdx/rdx_objectmanager.cpp, whose
-- loop takes the number of bytes as fuel, since each character takes a byte. Text/Candidate has the
-- operations that the string table takes keys by, `HashCKey`, `CompareKey` and `ConstructKey`, whose
-- loops take one more than the number of bytes as fuel or the room of the array; how a character
-- stands in memory is a parameter. Text/Candidate/Formats has the formats of a candidate.
--
-- The hash table `rdxCHashMap` of src/rdx/rdx_hashmap.hpp (HashMap): the array of entries is a list,
-- and what the template takes from its base is a record (`Keys`). HashMap/Probe follows the rounds of
-- the search, HashMap/Cycle where they come to, HashMap/Find, HashMap/Insert and HashMap/Update have
-- what the operations do to the array. HashMap/Rehash is `Rehash`, HashMap/Growth has
-- `EnlargeEntryArray`, `Insert`, `Balance`, `Clear` and the constructor, HashMap/Lookup what
-- `GetElement` returns after each, and HashMap/Refinement a client and the map that it sees.
-- The search makes as many rounds as there are entries. Within `Rehash`, the loop to a destination
-- takes the new number of entries as fuel, since it comes to each entry in as many rounds, and the loop
-- at one entry one more than the length of the array, since each round leaves one loose entry less.
--
-- The hashes of src/rdx/rdx_murmur3.cpp (Digest): Digest/Buffer is the loop that both hashes have,
-- which moves bytes to a buffer and mixes a full one in; Digest/Murmur3 has their words, and the
-- theorems compare feeding by pieces with the blocks of the whole message, of which there are not more
-- than bytes.
-- Digest/Crc32 and Digest/Sha256 are the generators of src/rdx/rdx_guid.cpp: the checksum, against the
-- division bit by bit (Digest/Crc32/Bitwise), and the digest, against the padded message
-- (Digest/Sha256/Padded), of which Digest/Sha256/Reference has the blocks, schedule and rounds. Their
-- loops are over the bytes, or over a fixed number of rounds.
--
-- What the platform decides is a parameter: whether `realloc` gives memory, the largest size, and
-- whether the object manager can create a string, and how a character stands in memory. The order of
-- a sorted block is one too, since the sorting is code of another project. Not modelled are the null
-- array passed to `NextTokenNative`, the creation of arrays by the object manager and its objects, the
-- signed overflow checks, the interpreter, the code generator and the copies of Lua and lz4.
--
-- Base has the names, tests, lists and words that all parts share; Tests runs the models.
pub mod Base
pub mod Compress
pub mod Digest
pub mod HashMap
pub mod Lexer
pub mod Tests
pub mod Text
