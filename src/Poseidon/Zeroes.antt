-- ===== src/Poseidon/Zeroes.antt =====
-- The hashes of the empty subtrees, level by level from the leaves, as the contracts carry them
-- (contracts/soroban-utils/src/poseidon2.rs).
use paymage.Base.{List, [], ◌∷◌}
use paymage.Host.Interface.{U256}

unfoldable pub get_zeroes : List U256
get_zeroes =
    0x25302288db99350344974183ce310d63b53abb9ef0f8575753eed36e0118f9ce
    ∷ 0x21f4ea2492ade006a8ee7fb764060a95a4eef5ca931e037bcdf05fc28067d008
    ∷ 0xebfb4d2f05bb6a473c9bff72586fec806f1ac237015c570d7c78249cf7d7740
    ∷ 0x66882a5dab186d4d63fa6600f9ea3d5cdfef2a2811c89731128a729d7e8b897
    ∷ 0x65db3148d8da5329beaec5042785c69f2ce0709e26d468bda1e255c599b5686
    ∷ 0x19926faa23b0737d467f9476f0f84b2968ff6666e16a23e4d44898f884504764
    ∷ 0x287c485a72ccc8d4d80692d97eb62c164953a0422791f6af6214a9a7ad2279c0
    ∷ 0x1f729e103e7d415f728dc945e3b6e2c40ac0cb369e532ba50a569790cdde2acc
    ∷ 0x1887e71f92217ffe86620e6ea5a71ad3521fade4c83203ffa3e838fe3d6e7203
    ∷ 0x295aa78e56c7a09a864f2f4175100095f3e7b9ef2a911af87cb0f3f7eef27700
    ∷ 0x517032a796b0340dc5f9df28b1fd320daba24d5a45335a137167300ee368828
    ∷ 0x15fadf4947d2a40c7b439e83ea3c979ff725aad11c47aaaf892aab413db2dcdd
    ∷ 0xacb7236b6d87f4875b3b9d1720a9e0682c70e4bc6d54edf61faa2bc93841d6
    ∷ 0x9836dd9054d560ae60ea6a8033404b3e40309f6ee4d170acb92e6667e86c775
    ∷ 0x2198946b17f9ba035d7ee728741ca5f4e5875cb6afb29684a6f5f9a82feec482
    ∷ 0x15d4b16830604dbe0b3212e31f9574787c15b0f54e5e24b080687e7a6ef6d455
    ∷ 0x2d07f73e04cf0a538037ba07561651ac979bb00e1705c75ddc9516ec4b8a6a76
    ∷ 0x2f8731aea289a6b401000487e8c6925c922407eeca58f2e18cc8ad9b6c5d13f
    ∷ 0xa30053c1787c79782e60bc8d825e9e323c8a902f93aa5923c24d17d16db925c
    ∷ 0xea3058d9958ba5fe441fbd79dc968f449215ddee66146161afcf34c34bfa490
    ∷ 0x27b9937e47a65983ad50a5b7f6b9cf0542c91a8dfa1714cef89013438a06f9b7
    ∷ 0x2d347be4e547c5837c1b2172322628a0c48d668193196791b310674b0453c039
    ∷ 0x3f2461b35b892fc8c589706283d1083f4d2d66be4f97e461abaf2f06f89cffd
    ∷ 0x259b8fa0082cf6066f005a0a49006712fe1dcfef6a98d68f7ab445f88adb61a7
    ∷ 0x1980a5f7eac09daac7b2d2179ba1d970fb3f0213dd90613128f5d55863d84414
    ∷ 0x1cfcd94aabc23cacd4ccab22e87d2303200d09b03042b2047f03d2e0def57e85
    ∷ 0x102bdc81acbf8c52d35871a21ff27516ddbe6e31ef51740c49bd2ee2b1980c21
    ∷ 0x2fad84f388a263e714c7b39fb0dd24be6158b9e21480aa3a60778707889f76ad
    ∷ 0x2ace942d30becb369f1cfd025b5394d6ee4c97f55930048a18fb501128c87777
    ∷ 0x930feccbf762a6b239acee2c369de9a31bd3e232c90c64af141945c1c415463
    ∷ 0x1a59e2ba55f1e829bca2c6316a9ccd08017d2e9bf532942c26d82365ca604b58
    ∷ 0x1a8e840c84e2fb5212d61f09ad5f91d6a70a83074e942772ef74b42d12a11f50
    ∷ 0x134b50df02e2ccb98b59af2c2c55d7a41ff102681730c42ba364dbff1271cf62 ∷ []
